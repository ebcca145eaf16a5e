-- ===== src/Console/Loops/Keeps.antt =====
-- internal/admin/admin.go: calls that leave the files as they were.
use unknowntunnel.Prelude.{◌≡◌, refl, ◌∙◌, Bool, true, false}
use unknowntunnel.Site.{Host, Answer, done, failed, forever, Console, bind, refuse_if, Error}
use unknowntunnel.Console.Loops.{Reads}

-- Every call that ends leaves the files as they were.
unfoldable pub Keeps : {A : Type 0} → Host → Answer A → Type 0
Keeps h (done a h') = h'.files ≡ h.files
Keeps h (failed e h') = h'.files ≡ h.files
Keeps h forever = Unit

pub Reads-Keeps : {A : Type 0} (h : Host) (x : Answer A) → Reads h x → Keeps h x
unfolding Keeps Reads
Reads-Keeps h (done a h') r = r.files
Reads-Keeps h (failed e h') r = r.files
Reads-Keeps h forever r = tt

kept_after : {B : Type 0} (h h' : Host) (x : Answer B) → h'.files ≡ h.files → Keeps h' x → Keeps h x
unfolding Keeps
kept_after h h' (done b h'') k l = l ∙ k
kept_after h h' (failed e h'') k l = l ∙ k
kept_after h h' forever k l = tt

pub done-Keeps : {A : Type 0} (h h' : Host) (a : A) → Keeps h (done a h') → h'.files ≡ h.files
unfolding Keeps
done-Keeps h h' a k = k

pub same-Keeps : {A : Type 0} (a : A) (h h' : Host) → h'.files ≡ h.files → Keeps h (done a h')
unfolding Keeps
same-Keeps a h h' e = e

pub refuse_if-Keeps : (b : Bool) (e : Error) (h : Host) → Keeps h (refuse_if b e h)
unfolding Keeps
refuse_if-Keeps true e h = refl
refuse_if-Keeps false e h = refl

pub bind-Keeps :
    {A B : Type 0} (h : Host) (x : Answer A) (f : A → Console B)
    → Keeps h x
    → ((a : A) (h' : Host) → Keeps h' (f a h'))
    → Keeps h (bind x f)
unfolding Keeps
bind-Keeps h (done a h') f k l = kept_after h h' (f a h') k (l a h')
bind-Keeps h (failed e h') f k l = k
bind-Keeps h forever f k l = tt

-- ===== src/Admin/Removal.antt =====
-- internal/admin/admin.go, `Delete`: the files that it leaves alone.
use unknowntunnel.Prelude.{
  ◌≡◌, ◌≢◌, ◌⊎◌, inl, inr, sym, ap, refl, ◌∙◌, subst, Bool, true, false, not, ◌&&◌, ◌||◌, ◌==◌,
  List, [], ◌∷◌, Bytes, codes, Map, bytes_key, lookup, lookup-remove, remove, bytes_eq_iff, arith,
}
use unknowntunnel.Config.{Config}
use unknowntunnel.Site.{
  choose, Site, Host, Answer, done, failed, forever, Console, bind, ◌>>=◌, pure, refuse_if,
  remove_file, drop_file, exists_in, load, Error, not_root, command_failed, cannot_remove,
}
use unknowntunnel.Site.Files.{host_of}
use unknowntunnel.Console.{yes_no}
use unknowntunnel.Console.Loops.{reads}
use unknowntunnel.Console.Loops.Keeps.{
  Keeps, done-Keeps, bind-Keeps, same-Keeps, refuse_if-Keeps, Reads-Keeps,
}
use unknowntunnel.Console.Loops.Prompts.{yes_no-IsReading}
use unknowntunnel.Instances.{config_path, unit, secret_referenced_elsewhere}
use unknowntunnel.Instances.Shared.{IsSharedBy, secret_referenced_elsewhere-IsSharedBy}
use unknowntunnel.Admin.{
  run, run_systemctl, attempt, ask_remove_secret, remove_if, delete_confirmed, delete,
}

-- A call leaves a file as it was, where it ends.
Spares : {A : Type 0} → Bytes → Host → Answer A → Type 0
Spares path h (done a h') = lookup path h'.files ≡ lookup path h.files
Spares path h (failed e h') = lookup path h'.files ≡ lookup path h.files
Spares path h forever = Unit

Keeps-Spares : {A : Type 0} (path : Bytes) (h : Host) (x : Answer A) → Keeps h x → Spares path h x
unfolding Spares Keeps
Keeps-Spares path h (done a h') k = ap (λ f. lookup path f) k
Keeps-Spares path h (failed e h') k = ap (λ f. lookup path f) k
Keeps-Spares path h forever k = tt

spared_after :
    {B : Type 0} (path : Bytes) (h h' : Host) (x : Answer B)
    → lookup path h'.files ≡ lookup path h.files
    → Spares path h' x
    → Spares path h x
unfolding Spares
spared_after path h h' (done b h'') k l = l ∙ k
spared_after path h h' (failed e h'') k l = l ∙ k
spared_after path h h' forever k l = tt

bind-Spares :
    {A B : Type 0} (path : Bytes) (h : Host) (x : Answer A) (f : A → Console B)
    → Spares path h x
    → ((a : A) (h' : Host) → x ≡ done a h' → Spares path h' (f a h'))
    → Spares path h (bind x f)
unfolding Spares
bind-Spares path h (done a h') f k l = spared_after path h h' (f a h') k (l a h' refl)
bind-Spares path h (failed e h') f k l = k
bind-Spares path h forever f k l = tt

pub yes_no-Keeps : (site : Site) (default : Bool) (h : Host) → Keeps h (yes_no site default h)
yes_no-Keeps site default h =
    Reads-Keeps h (yes_no site default h)
      (reads (yes_no site default) (yes_no-IsReading site default) h)

module _ (site : Site) where
  pub run_systemctl-Keeps : (args : List Bytes) (h : Host) → Keeps h (run_systemctl site args h)
  unfolding run_systemctl run
  run_systemctl-Keeps args h =
      bind-Keeps h (run site (codes "systemctl" ∷ args) h) _ (same-Keeps _ h _ refl)
        (λ code h'. refuse_if-Keeps (not (code == 0)) command_failed h')

  pub attempt-Keeps :
      {A : Type 0} (h : Host) (x : Answer A)
      → Keeps h x
      → Keeps h (elim x [ done _ h' ↦ done tt h' | failed _ h' ↦ done tt h' | forever ↦ forever ])
  unfolding Keeps
  attempt-Keeps h (done a h') k = k
  attempt-Keeps h (failed e h') k = k
  attempt-Keeps h forever k = tt

  choose-Spares :
      {A : Type 0} (path : Bytes) (h : Host) (b : Bool) (m k : Console A)
      → (b ≡ true → Spares path h (m h))
      → (b ≡ false → Spares path h (k h))
      → Spares path h (choose b m k h)
  unfolding choose
  choose-Spares path h true m k rm rk = rm refl
  choose-Spares path h false m k rm rk = rk refl

  pub choose-Keeps :
      {A : Type 0} (b : Bool) (h : Host) (m k : Console A)
      → Keeps h (m h)
      → Keeps h (k h)
      → Keeps h (choose b m k h)
  unfolding choose
  choose-Keeps true h m k rm rk = rm
  choose-Keeps false h m k rm rk = rk

  guarded-Spares :
      (path : Bytes) (b : Bool) (e : Error) (h : Host) (k : Console (Unit {0}))
      → Spares path h (k h)
      → Spares path h (bind (refuse_if b e h) (λ _. k))
  unfolding Spares
  guarded-Spares path true e h k r = refl
  guarded-Spares path false e h k r = r

  -- Why a deletion leaves a file alone: it is not the tunnel's secret, or another tunnel uses that secret.
  unfoldable pub IsSpared : Bytes → Bytes → Config → Map Bytes Bytes → Type 0
  IsSpared path name c files =
      (path ≢ site.clean c.auth.secret_file)
      ⊎ ((other : Bytes) × IsSharedBy site files c.auth.secret_file name other)

  remove_file-Spares :
      (path other : Bytes) (h : Host)
      → path ≢ site.clean other
      → Spares path h (remove_file site other h)
  unfolding remove_file Spares
  remove_file-Spares path other h differ =
      guarded-Spares path (exists_in (site.clean other) h.files && not (site.can_remove other))
        cannot_remove h (drop_file (site.clean other))
        (ground (
          arith,
          lookup-remove (site.clean other) path h.files,
          bytes_eq_iff (site.clean other) path,
          differ,
        ))

  attempt-Spares :
      (path : Bytes) (h : Host) (x : Answer (Unit {0}))
      → Spares path h x
      → Spares path h
          (elim x [ done _ h' ↦ done tt h' | failed _ h' ↦ done tt h' | forever ↦ forever ])
  unfolding Spares
  attempt-Spares path h (done a h') k = k
  attempt-Spares path h (failed e h') k = k
  attempt-Spares path h forever k = tt

  remove_if-Spares :
      (path other : Bytes) (agreed : Bool) (h : Host)
      → (agreed ≡ true → path ≢ site.clean other)
      → Spares path h (remove_if site agreed other h)
  unfolding remove_if
  remove_if-Spares path other agreed h differ =
      choose-Spares path h agreed (attempt (remove_file site other)) (pure tt)
        (λ e.
          attempt-Spares path h (remove_file site other h)
            (remove_file-Spares path other h (differ e)))
        (λ e. Keeps-Spares path h (done tt h) (same-Keeps tt h h refl))

  ask_remove_secret-Keeps :
      (name : Bytes) (force : Bool) (secret : Bytes) (h : Host)
      → Keeps h (ask_remove_secret site name force secret h)
  unfolding ask_remove_secret
  ask_remove_secret-Keeps name force secret h =
      choose-Keeps (secret_referenced_elsewhere site h.files secret name || force) h (pure false)
        (yes_no site false) (same-Keeps false h h refl) (yes_no-Keeps site false h)

  agreed_of : Answer Bool → Bool
  agreed_of (done b h) = b
  agreed_of (failed e h) = true
  agreed_of forever = true

  -- A secret that another tunnel uses is not asked about.
  never_asked :
      (name : Bytes) (force : Bool) (secret : Bytes) (h h' : Host) (agreed : Bool)
      → secret_referenced_elsewhere site h.files secret name ≡ true
      → ask_remove_secret site name force secret h ≡ done agreed h'
      → agreed ≡ false
  unfolding ask_remove_secret choose agreed_of
  never_asked name force secret h h' agreed used q = sym (
      ap agreed_of
        (sym (ap (λ b. choose (b || force) (pure false) (yes_no site false) h) used) ∙ q))

  after_removal :
      (name : Bytes) (force : Bool) (c : Config) (path : Bytes) (files : Map Bytes Bytes) (h : Host)
      → IsSpared path name c files
      → h.files ≡ remove (site.clean (config_path site name)) files
      → Spares path h (
          (do
            agreed ← ask_remove_secret site name force c.auth.secret_file
            remove_if site agreed c.auth.secret_file)
            h)
  unfolding IsSpared
  after_removal name force c path files h spared e =
      bind-Spares path h (ask_remove_secret site name force c.auth.secret_file h) _
        (Keeps-Spares path h _ (ask_remove_secret-Keeps name force c.auth.secret_file h))
        (λ agreed h' q. remove_if-Spares path c.auth.secret_file agreed h' (λ yes_agreed.
          elim spared [
            | inl differ ↦ differ
            | inr (other, shared) ↦ absurd (
                cc (
                  yes_agreed,
                  never_asked name force c.auth.secret_file h h' agreed
                      (ap (λ f. secret_referenced_elsewhere site f c.auth.secret_file name) e
                        ∙ secret_referenced_elsewhere-IsSharedBy site files c.auth.secret_file name
                            other shared)
                      q,
                ))
          ]))

  removed_after :
      (b : Bool) (path : Bytes) (h h' : Host)
      → bind (refuse_if b cannot_remove h) (λ _. drop_file path) ≡ done tt h'
      → h'.files ≡ remove path h.files
  removed_after true path h h' q = cc
  removed_after false path h h' q = sym (ap (λ x. (host_of h x).files) q)

  remove_file-after :
      (path : Bytes) (h h' : Host)
      → remove_file site path h ≡ done tt h'
      → h'.files ≡ remove (site.clean path) h.files
  unfolding remove_file
  remove_file-after path h h' q =
      removed_after (exists_in (site.clean path) h.files && not (site.can_remove path))
        (site.clean path) h h' q

  delete_confirmed-Spares :
      (name : Bytes) (force : Bool) (c : Config) (path : Bytes) (h : Host)
      → path ≢ site.clean (config_path site name)
      → IsSpared path name c h.files
      → Spares path h (delete_confirmed site name force c h)
  unfolding delete_confirmed
  delete_confirmed-Spares name force c path h differ spared =
      let command = run_systemctl site (codes "disable" ∷ codes "--now" ∷ unit site name ∷ []) in
      let kept =
        attempt-Keeps h (command h)
          (run_systemctl-Keeps (codes "disable" ∷ codes "--now" ∷ unit site name ∷ []) h) in
      bind-Spares path h (attempt command h) _ (Keeps-Spares path h _ kept) (λ _ h1 q1.
        let same : h1.files ≡ h.files = done-Keeps h h1 tt (subst (Keeps h) q1 kept) in
        bind-Spares path h1 (remove_file site (config_path site name) h1) _
          (remove_file-Spares path (config_path site name) h1 differ)
          (λ _ h2 q2. after_removal name force c path h.files h2 spared (
            remove_file-after (config_path site name) h1 h2 q2
            ∙ ap (remove (site.clean (config_path site name))) same)))

  Spares-lookup :
      {A : Type 0} (path : Bytes) (h : Host) (x : Answer A)
      → Spares path h x
      → lookup path (host_of h x).files ≡ lookup path h.files
  unfolding Spares
  Spares-lookup path h (done a h') r = r
  Spares-lookup path h (failed e h') r = r
  Spares-lookup path h forever r = refl

  loaded-Spares :
      (name : Bytes) (force : Bool) (c : Config) (path : Bytes) (h : Host)
      → path ≢ site.clean (config_path site name)
      → IsSpared path name c h.files
      → Spares path h (
          (do
            sure ← choose force (pure true) (yes_no site false)
            choose sure (delete_confirmed site name force c) (pure tt))
            h)
  loaded-Spares name force c path h differ spared =
      let asked =
        choose-Keeps force h (pure true) (yes_no site false) (same-Keeps true h h refl)
          (yes_no-Keeps site false h) in
      bind-Spares path h (choose force (pure true) (yes_no site false) h) _
        (Keeps-Spares path h _ asked)
        (λ sure h1 q.
          let same : h1.files ≡ h.files = done-Keeps h h1 sure (subst (Keeps h) q asked) in
          choose-Spares path h1 sure (delete_confirmed site name force c) (pure tt)
            (λ _.
              delete_confirmed-Spares name force c path h1 differ
                (subst (IsSpared path name c) (sym same) spared))
            (λ _. Keeps-Spares path h1 (done tt h1) (same-Keeps tt h1 h1 refl)))

  -- For a tunnel whose configuration loads, Delete leaves every file as it was but the
  -- tunnel's configuration file and its secret file, and leaves the secret file too where
  -- another tunnel of the directory has a configuration that loads and names the same file.
  pub delete-spares :
      (name : Bytes) (force : Bool) (c : Config) (path : Bytes) (h : Host)
      → load site (config_path site name) h ≡ done c h
      → path ≢ site.clean (config_path site name)
      → IsSpared path name c h.files
      → lookup path (host_of h (delete site name force h)).files ≡ lookup path h.files
  unfolding delete
  delete-spares name force c path h loads differ spared =
      Spares-lookup path h (delete site name force h) (
        guarded-Spares path (not site.root) not_root h _ (
          subst
            (λ x. Spares path h (
              bind x (λ config. do
                sure ← choose force (pure true) (yes_no site false)
                choose sure (delete_confirmed site name force config) (pure tt))))
            (sym loads) (loaded-Spares name force c path h differ spared)))

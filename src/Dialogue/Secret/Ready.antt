-- ===== src/Dialogue/Secret/Ready.antt =====
-- internal/admin/admin.go, `configureSecret`: the secret that it leaves can be read.
use unknowntunnel.Prelude.{
  ◌≡◌, refl, Bool, true, false, ltb, [], Bytes, bytes_eq, codes, length, if◌then◌else◌, bytes_key,
}
use unknowntunnel.Site.{
  Site, Host, Answer, done, failed, forever, Console, bind, pure, read_secret, write_secret, Error,
  refuse_if, from_option, file_exists, no_randomness, short_secret, min_secret,
}
use unknowntunnel.Site.Files.{TrimsNewline, read_secret_again, read_secret-write_secret}
use unknowntunnel.Console.{read_line, prompt_required, choice}
use unknowntunnel.Dialogue.Secret.{
  keep_secret, use_file, confirm_overwrite, paste_secret, generate_secret, secret_action,
  configure_secret,
}

-- A call that returns: what, and on which host.
unfoldable pub Ends : {A : Type 0} → (A → Host → Type 0) → Answer A → Type 0
Ends P (done a h') = P a h'
Ends P (failed e h') = Unit
Ends P forever = Unit

pub bind-Ends :
    {A B : Type 0} (P : B → Host → Type 0) (x : Answer A) (f : A → Console B)
    → ((a : A) (h' : Host) → x ≡ done a h' → Ends P (f a h'))
    → Ends P (bind x f)
unfolding Ends
bind-Ends P (done a h') f k = k a h' refl
bind-Ends P (failed e h') f k = tt
bind-Ends P forever f k = tt

pub failed-Ends : {A : Type 0} (P : A → Host → Type 0) (e : Error) (h : Host) → Ends P (failed e h)
unfolding Ends
failed-Ends P e h = tt

pub done-Ends : {A : Type 0} (P : A → Host → Type 0) (a : A) (h : Host) → P a h → Ends P (done a h)
unfolding Ends
done-Ends P a h p = p

pub Ends-done : {A : Type 0} (P : A → Host → Type 0) (a : A) (h : Host) → Ends P (done a h) → P a h
unfolding Ends
Ends-done P a h p = p

module _ (site : Site) where
  -- The secret of a file can be read.
  abbrev pub CanRead : Bytes → Host → Type 0
  CanRead path h = (key : Bytes) × (read_secret site path h ≡ done key h)

  abbrev pub IsReady : Bytes × Bytes → Host → Type 0
  IsReady made h = CanRead made.0 h

  read-IsReady : (path : Bytes) (h : Host) → Ends IsReady (keep_secret site path h)
  unfolding keep_secret
  read-IsReady path h =
      bind-Ends IsReady (read_secret site path h) _
        (λ key h' q. done-Ends IsReady (path, []) h' (key, read_secret_again site path key h h' q))

  use_file-IsReady : (old : Bytes) (h : Host) → Ends IsReady (use_file site old h)
  unfolding use_file keep_secret
  use_file-IsReady old h =
      bind-Ends IsReady (prompt_required site old h) _ (λ path h1 _. read-IsReady path h1)

  module _ (trims : TrimsNewline site) where
    write-IsReady :
        (path secret made : Bytes) (overwrite : Bool) (h : Host)
        → Ends IsReady (bind (write_secret site path secret overwrite h) (λ _. pure (path, made)))
    write-IsReady path secret made overwrite h =
        bind-Ends IsReady (write_secret site path secret overwrite h) (λ _. pure (path, made))
          (λ _ h' q.
            done-Ends IsReady (path, made) h'
              (
                site.text.trim_space secret,
                read_secret-write_secret site trims path secret overwrite h h' q,
              ))

    paste_secret-IsReady : (default : Bytes) (h : Host) → Ends IsReady (paste_secret site default h)
    unfolding paste_secret
    paste_secret-IsReady default h = bind-Ends IsReady (read_line h) _ (λ line h1 _.
        let secret = site.text.trim_space line in
        bind-Ends IsReady
          (refuse_if (ltb (length (site.text.trim_space secret)) min_secret) short_secret h1) _
          (λ _ h2 _.
            bind-Ends IsReady (prompt_required site default h2) _
              (λ path h3 _. write-IsReady path (site.text.trim_space secret) [] true h3)))

    generate_secret-IsReady :
        (default : Bytes) (h : Host) → Ends IsReady (generate_secret site default h)
    unfolding generate_secret
    generate_secret-IsReady default h =
        bind-Ends IsReady (from_option site.random_secret no_randomness h) _ (λ secret h1 _.
          bind-Ends IsReady (prompt_required site default h1) _ (λ path h2 _.
            bind-Ends IsReady (file_exists site path h2) _ (λ present h3 _.
              bind-Ends IsReady (confirm_overwrite site present h3) _
                (λ _ h4 _. write-IsReady path secret secret true h4))))

    branch-IsReady :
        (b : Bool) (h : Host) (m k : Console (Bytes × Bytes))
        → Ends IsReady (m h)
        → Ends IsReady (k h)
        → Ends IsReady ((if b then m else k) h)
    branch-IsReady true h m k r s = r
    branch-IsReady false h m k r s = s

    -- The path that the dialogue returns is that of a file with a secret that can be read.
    pub configure_secret-IsReady :
        (name secret_file : Bytes) (editing : Bool) (h : Host)
        → Ends IsReady (configure_secret site name secret_file editing h)
    unfolding configure_secret secret_action
    configure_secret-IsReady name secret_file editing h =
        bind-Ends IsReady (choice site _ _ h) _ (λ action h1 _.
          branch-IsReady (bytes_eq action (codes "keep")) h1 _ _ (read-IsReady _ h1) (
            branch-IsReady (bytes_eq action (codes "file")) h1 _ _ (use_file-IsReady _ h1) (
              branch-IsReady (bytes_eq action (codes "paste")) h1 _ _ (paste_secret-IsReady _ h1) (
                branch-IsReady (bytes_eq action (codes "generate")) h1 _ _
                  (generate_secret-IsReady _ h1) (failed-Ends IsReady _ h1)))))

-- ===== src/Site/Files.antt =====
-- internal/config/config.go: what was saved is loaded, and a secret that was written is read.
use unknowntunnel.Prelude.{
  ◌≤◌, ◌≡◌, ◌⊎◌, sym, ap, refl, ◌∙◌, Bool, true, false, not, ltb, List, [], ◌∷◌, ◌++◌, Bytes, codes,
  bytes_eq_iff, Option, none, some, subst, length, Map, bytes_key, lookup, insert, lookup-insert,
  Result, ok, err, inl, inr, arith,
}
use unknowntunnel.Config.{Config, ConfigError, validate}
use unknowntunnel.Config.Stable.{IsLower, validate-validate}
use unknowntunnel.Site.{
  Site, Host, Answer, done, failed, forever, bind, ◌>>◌, refuse_if, put_file, from_result,
  from_option, no_secret, Error, invalid, cannot_write, accepted, load_from, load, save,
  check_secret, refuse_existing, write_secret, read_secret, min_secret, max_secret, short_secret,
  large_secret,
}

-- The decoder takes what the encoder made, with the newline that is written after it.
pub HasJson : Site → Type 0
HasJson site = (c : Config) → site.unmarshal (site.marshal c ++ codes "\n") ≡ some c

-- Trimming takes off the newline that is written after a trimmed text.
unfoldable pub TrimsNewline : Site → Type 0
TrimsNewline site =
    (s : Bytes)
    → site.text.trim_space (site.text.trim_space s ++ codes "\n") ≡ site.text.trim_space s

-- The host after a call, or another where the call does not end.
abbrev pub host_of : {A : Type 0} → Host → Answer A → Host
host_of h (done a h') = h'
host_of h (failed e h') = h'
host_of h forever = h

-- A chain that returned: its first result, and the chain from there.
pub bind-eq-done :
    {A B : Type 0} {b : B} {h' : Host} (x : Answer A) (f : A → Host → Answer B)
    → bind x f ≡ done b h'
    → (a : A) × (h1 : Host) × (x ≡ done a h1) × (f a h1 ≡ done b h')
bind-eq-done (done a h1) f q = (a, h1, refl, q)
bind-eq-done (failed e h1) f q = cc
bind-eq-done forever f q = cc

abbrev pub with_file : Bytes → Bytes → Host → Host
with_file path content h = record h { files = insert path content h.files }

lookup-same :
    (path content : Bytes) (files : Map Bytes Bytes)
    → lookup path (insert path content files) ≡ some content
lookup-same path content files =
    ground (arith, lookup-insert path path content files, bytes_eq_iff path path)

pub accepted-cases :
    (site : Site) (r : Config × List ConfigError)
    → ((e : Error) × (accepted site r ≡ err e)) ⊎ ((accepted site r ≡ ok r.0) × (r.1 ≡ []))
unfolding accepted
accepted-cases site (c, []) = inr (refl, refl)
accepted-cases site (c, e ∷ es) = inl (invalid (e ∷ es), refl)

-- The answer of a call that returned, at another host.
config_or : Config → Answer Config → Host → Answer Config
config_or d (done c _) h = done c h
config_or d _ h = done d h

loaded_with :
    (r r' : Result Error Config) (c : Config) (h h' : Host)
    → from_result r h ≡ done c h
    → r' ≡ r
    → from_result r' h' ≡ done c h'
unfolding config_or
loaded_with (ok d) r' c h h' q e = ap (λ x. from_result x h') e ∙ ap (λ x. config_or d x h') q
loaded_with (err f) r' c h h' q e = cc

from_option-same :
    (o : Option Bytes) (e : Error) (a : Bytes) (h h' : Host)
    → from_option o e h ≡ done a h'
    → h' ≡ h
from_option-same none e a h h' q = cc
from_option-same (some b) e a h h' q = sym (ap (host_of h) q)

module _ (site : Site) where
  -- A file of a configuration is loaded as what Validate makes of that.
  load_file :
      (files : Map Bytes Bytes) (path content : Bytes) (c : Config)
      → lookup (site.clean path) files ≡ some content
      → site.unmarshal content ≡ some c
      → load_from site files path ≡ accepted site (validate site.text c)
  unfolding load_from
  load_file files path content c e u = rw (e, load_from) (rw (u) refl)

  -- Where `save` came to its end: no errors, a path that can be written, and the file.
  pub record IsSaved (path : Bytes) (c : Config) (h h' : Host) : Type 0 where
    pub no_errors : (validate site.text c).1 ≡ []
    pub after :
        h' ≡ with_file (site.clean path) (site.marshal (validate site.text c).0 ++ codes "\n") h

  saved :
      (path : Bytes) (c : Config) (r : Config × List ConfigError) (b : Bool) (h h' : Host)
      → validate site.text c ≡ r
      → bind (from_result (accepted site r) h) (λ checked.
        refuse_if b cannot_write >> put_file (site.clean path) (site.marshal checked ++ codes "\n"))
        ≡ done tt h'
      → IsSaved path c h h'
  unfolding accepted
  saved path c (d, []) false h h' e q = record {
    no_errors = ap (λ r. r.1) e;
    after =
        sym (ap (host_of h) q)
        ∙ ap
            (λ (r : Config × List ConfigError).
              with_file (site.clean path) (site.marshal r.0 ++ codes "\n") h)
            (sym e);
  }
  saved path c (d, []) true h h' e q = cc
  saved path c (d, f ∷ fs) b h h' e q = cc

  pub save-IsSaved :
      (path : Bytes) (c : Config) (h h' : Host)
      → save site path c h ≡ done tt h'
      → IsSaved path c h h'
  unfolding save
  save-IsSaved path c h h' q =
      saved path c (validate site.text c) (not (site.can_write path)) h h' refl q

  accepted_again :
      (c : Config)
      → IsLower site.text
      → (validate site.text c).1 ≡ []
      → accepted site (validate site.text (validate site.text c).0) ≡ ok (validate site.text c).0
  unfolding accepted
  accepted_again c low e =
      ap (accepted site) (validate-validate site.text low c)
      ∙ ap (λ es. accepted site ((validate site.text c).0, es)) e

  -- Where lower-casing is idempotent and the JSON codec reads what it wrote: what `save` has saved is loaded, as Validate has completed it.
  pub load-save :
      IsLower site.text
      → HasJson site
      → (path : Bytes) (c : Config) (h h' : Host) → save site path c h ≡ done tt h'
      → load site path h' ≡ done (validate site.text c).0 h'
  unfolding load HasJson
  load-save low json path c h h' q =
      let s = save-IsSaved path c h h' q in
      let d = (validate site.text c).0 in
      let content = site.marshal d ++ codes "\n" in
      let there =
        ap (λ g. lookup (site.clean path) g.files) s.after
        ∙ lookup-same (site.clean path) content h.files in
      ap (λ r. from_result r h')
        (load_file h'.files path content d there (json d) ∙ accepted_again c low s.no_errors)

  checks :
      (a b : Bool) (e e' : Error) (h h' : Host)
      → bind (refuse_if a e h) (λ _. refuse_if b e') ≡ done tt h'
      → (a ≡ false) × (b ≡ false) × (h' ≡ h)
  checks false false e e' h h' q = (refl, refl, sym (ap (host_of h) q))
  checks true b e e' h h' q = cc
  checks false true e e' h h' q = cc

  -- A secret that passes the check.
  check_secret-Sized :
      (secret : Bytes) (h h' : Host)
      → check_secret site secret h ≡ done tt h'
      → (min_secret ≤ length secret) × (length secret ≤ max_secret) × (h' ≡ h)
  unfolding check_secret
  check_secret-Sized secret h h' q =
      let (small, large, same) =
        checks (ltb (length secret) min_secret) (ltb max_secret (length secret)) short_secret
          large_secret h h' q in
      (ground (arith, small), ground (arith, large), same)

  sized-check_secret :
      (secret : Bytes) (h : Host)
      → min_secret ≤ length secret
      → length secret ≤ max_secret
      → check_secret site secret h ≡ done tt h
  unfolding check_secret
  sized-check_secret secret h small large =
      let a : ltb (length secret) min_secret ≡ false = ground (arith, small) in
      let b : ltb max_secret (length secret) ≡ false = ground (arith, large) in rw (a, b) refl

  refused : (b : Bool) (e : Error) (h h' : Host) → refuse_if b e h ≡ done tt h' → h' ≡ h
  refused false e h h' q = sym (ap (host_of h) q)
  refused true e h h' q = cc

  refuse_existing-same :
      (overwrite : Bool) (path : Bytes) (h h' : Host)
      → refuse_existing site overwrite path h ≡ done tt h'
      → h' ≡ h
  unfolding refuse_existing
  refuse_existing-same true path h h' q = sym (ap (host_of h) q)
  refuse_existing-same false path h h' q = refused _ _ h h' q

  -- A write that came to its end.
  pub record IsWritten (path secret : Bytes) (h h' : Host) : Type 0 where
    pub enough : min_secret ≤ length (site.text.trim_space secret)
    pub not_large : length (site.text.trim_space secret) ≤ max_secret
    pub after : h' ≡ with_file (site.clean path) (site.text.trim_space secret ++ codes "\n") h

  pub write_secret-IsWritten :
      (path secret : Bytes) (overwrite : Bool) (h h' : Host)
      → write_secret site path secret overwrite h ≡ done tt h'
      → IsWritten path secret h h'
  unfolding write_secret
  write_secret-IsWritten path secret overwrite h h' q =
      let t = site.text.trim_space secret in
      let (_, h1, e1, q1) = bind-eq-done (check_secret site t h) _ q in
      let (_, h2, e2, q2) = bind-eq-done (refuse_existing site overwrite path h1) _ q1 in
      let (_, h3, e3, q3) =
        bind-eq-done (refuse_if (not (site.can_write path)) cannot_write h2) _ q2 in
      let sized = check_secret-Sized t h h1 e1 in
      let same =
        refused (not (site.can_write path)) cannot_write h2 h3 e3
        ∙ refuse_existing-same overwrite path h1 h2 e2
        ∙ sized.2 in
      record {
        enough = sized.0;
        not_large = sized.1;
        after = sym (ap (host_of h) q3) ∙ ap (with_file (site.clean path) (t ++ codes "\n")) same;
      }

  read_file :
      (path content : Bytes) (h : Host)
      → lookup (site.clean path) h.files ≡ some content
      → min_secret ≤ length (site.text.trim_space content)
      → length (site.text.trim_space content) ≤ max_secret
      → read_secret site path h ≡ done (site.text.trim_space content) h
  unfolding read_secret
  read_file path content h there small large =
      rw (there) (rw (sized-check_secret (site.text.trim_space content) h small large) refl)

  -- Where trimming takes off the newline that is written: a secret that was written is read,
  -- trimmed.
  pub read_secret-write_secret :
      TrimsNewline site
      → (path secret : Bytes) (overwrite : Bool) (h h' : Host)
      → write_secret site path secret overwrite h ≡ done tt h'
      → read_secret site path h' ≡ done (site.text.trim_space secret) h'
  unfolding TrimsNewline
  read_secret-write_secret trims path secret overwrite h h' q =
      let w = write_secret-IsWritten path secret overwrite h h' q in
      let content = site.text.trim_space secret ++ codes "\n" in
      let there =
        ap (λ g. lookup (site.clean path) g.files) w.after
        ∙ lookup-same (site.clean path) content h.files in
      let same = trims secret in
      read_file path content h' there (omega (arith, w.enough, ap (λ t. length t) same))
        (omega (arith, w.not_large, ap (λ t. length t) same))
      ∙ ap (λ t. done t h') same

  read_checked :
      (secret : Bytes) (h h' : Host) (key : Bytes)
      → bind (check_secret site secret h) (λ _ h1. done secret h1) ≡ done key h'
      → h' ≡ h
  read_checked secret h h' key q =
      let (_, h1, e1, q1) = bind-eq-done (check_secret site secret h) (λ _ h1. done secret h1) q in
      sym (ap (host_of h) q1) ∙ (check_secret-Sized secret h h1 e1).2

  -- A secret that was read can be read again.
  pub read_secret_again :
      (path key : Bytes) (h h' : Host)
      → read_secret site path h ≡ done key h'
      → read_secret site path h' ≡ done key h'
  unfolding read_secret
  read_secret_again path key h h' q =
      let (content, h1, e1, q1) =
        bind-eq-done (from_option (lookup (site.clean path) h.files) no_secret h) _ q in
      let same =
        read_checked (site.text.trim_space content) h1 h' key q1
        ∙ from_option-same (lookup (site.clean path) h.files) no_secret content h h1 e1 in
      subst (λ x. read_secret site path x ≡ done key h') (sym same) q

  -- A configuration is loaded as long as the files stay.
  pub load-kept :
      (path : Bytes) (c : Config) (h h' : Host)
      → load site path h ≡ done c h
      → h'.files ≡ h.files
      → load site path h' ≡ done c h'
  unfolding load
  load-kept path c h h' q e =
      loaded_with (load_from site h.files path) (load_from site h'.files path) c h h' q
        (ap (λ f. load_from site f path) e)

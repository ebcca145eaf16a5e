-- ===== src/Console/Loops/Prompts.antt =====
-- internal/admin/admin.go, the prompts: what they return, and when they return.
use unknowntunnel.Prelude.{
  ℕ, ◌+◌, length, ◌≡◌, ◌≢◌, subst, ap, refl, sym, Bool, true, false, not, List, [], ◌∷◌, Bytes,
  bytes_eq, bytes_eq_iff, Option, none, some, All, arith,
}
use unknowntunnel.Config.{valid_identifier, valid_interface}
use unknowntunnel.Config.Valid.{valid_identifier-nonempty}
use unknowntunnel.Site.{Site, Host, Answer, done, failed, forever, Console, bind, ◌>>=◌, pure}
use unknowntunnel.Console.{
  again, repeat, return_if, take_line, read_line, value_or, prompt, prompt_required,
  prompt_identifier, prompt_interface, prompt_cidr, prompt_port, is_number, yes_no, yes_or_no,
}
use unknowntunnel.Console.Loops.{
  IsReading, read_line-IsReading, pure_after-IsReading, repeat-IsReading, again_forever,
}
use unknowntunnel.Console.Loops.Returns.{Returns, repeat-Returns}
use unknowntunnel.Console.Loops.Endings.{IsReadable, Succeeds, IsSome, repeat-Succeeds, repeat_now}

-- A round that asks once and takes what is good.
asks : (Bytes → Bool) → Console Bytes → Console (Option Bytes)
asks good ask = do value ← ask; pure (return_if (good value) value)

good_value :
    (good : Bytes → Bool) (b : Bool) (v a : Bytes) (h h' : Host)
    → good v ≡ b
    → done (return_if b v) h ≡ done (some a) h'
    → good a ≡ true
good_value good true v a h h' e q = cc
good_value good false v a h h' e q = cc

good_answer :
    (good : Bytes → Bool) (x : Answer Bytes) (h' : Host) (a : Bytes)
    → bind x (λ v. pure (return_if (good v) v)) ≡ done (some a) h'
    → good a ≡ true
good_answer good (done v h) h' a q = good_value good (good v) v a h h' refl q
good_answer good (failed e h) h' a q = cc
good_answer good forever h' a q = cc

asks-Returns :
    (good : Bytes → Bool) (ask : Console Bytes) (h : Host)
    → Returns (λ a. good a ≡ true) (repeat (asks good ask) h)
unfolding asks
asks-Returns good ask h =
    repeat-Returns (λ a. good a ≡ true) (asks good ask)
      (λ h h' a e. good_answer good (ask h) h' a e) h

asks-IsReading :
    (good : Bytes → Bool) (ask : Console Bytes) → IsReading ask → IsReading (asks good ask)
unfolding asks
asks-IsReading good ask reading = pure_after-IsReading ask (λ v. return_if (good v) v) reading

-- What a prompt is: it reads, it returns where the lines can be read, and at their end it returns its default.
pub record IsPrompt {A : Type 0} (ask : Console A) (default : A) : Type 0 where
  pub reading : IsReading ask
  pub fine : (h : Host) → IsReadable h → Succeeds (λ _. Unit) (ask h)
  pub at_end : (h : Host) → h.input ≡ [] → ask h ≡ done default h

pure_after-Succeeds :
    {A B : Type 0} (f : A → B) (x : Answer A)
    → Succeeds (λ _. Unit) x
    → Succeeds (λ _. Unit) (bind x (λ a. pure (f a)))
unfolding Succeeds
pure_after-Succeeds f (done a h) ok = ok
pure_after-Succeeds f (failed e h) ok = ok
pure_after-Succeeds f forever ok = ok

-- What a prompt makes of the answer of another.
pure_after-IsPrompt :
    {A B : Type 0} (m : Console A) (f : A → B) (default : A)
    → IsPrompt m default
    → IsPrompt (m >>= λ a. pure (f a)) (f default)
pure_after-IsPrompt m f default p = record {
  reading = pure_after-IsReading m f p.reading;
  fine = λ h ok. pure_after-Succeeds f (m h) (p.fine h ok);
  at_end = λ h e. ap (λ x. bind x (λ a. pure (f a))) (p.at_end h e);
}

ends_well :
    {A : Type 0} (body : Console (Option A)) (a : A) (h : Host)
    → body h ≡ done (some a) h
    → h.input ≡ []
    → Succeeds IsSome (body h)
unfolding Succeeds IsSome IsReadable
ends_well body a h e nil =
    subst (λ x. Succeeds IsSome x) (sym e)
      (tt, subst (λ xs. All (λ line. line ≢ none) xs) (sym nil) tt)

repeat-IsPrompt :
    {A : Type 0} (body : Console (Option A)) (a : A)
    → IsPrompt body (some a)
    → IsPrompt (repeat body) a
repeat-IsPrompt body a p = record {
  reading = repeat-IsReading body p.reading;
  fine = λ h ok.
      repeat-Succeeds body p.reading p.fine (λ h nil. ends_well body a h (p.at_end h nil) nil) h ok;
  at_end = λ h nil. repeat_now body h h a (p.at_end h nil);
}

take_line-Succeeds :
    (lines : List (Option Bytes)) (h : Host)
    → All (λ line. line ≢ none) lines
    → IsReadable h
    → Succeeds (λ _. Unit) (take_line lines h)
unfolding Succeeds IsReadable take_line
take_line-Succeeds [] h ok all = (tt, all)
take_line-Succeeds (none ∷ rest) h ok all = absurd (ok.0 refl)
take_line-Succeeds (some line ∷ rest) h ok all = (tt, ok.1)

read_line-IsPrompt : IsPrompt read_line []
unfolding read_line IsReadable
read_line-IsPrompt = record {
  reading = read_line-IsReading;
  fine = λ h ok. take_line-Succeeds h.input h ok ok;
  at_end = λ h e. ap (λ lines. take_line lines h) e;
}

-- The last line of `take_line` at the end of the input, and the texts that the Go functions leave alone.
asks-IsPrompt :
    (good : Bytes → Bool) (ask : Console Bytes) (default : Bytes)
    → good default ≡ true
    → IsPrompt ask default
    → IsPrompt (repeat (asks good ask)) default
unfolding asks
asks-IsPrompt good ask default ok p = repeat-IsPrompt (asks good ask) default (
    subst (λ b. IsPrompt (asks good ask) (return_if b default)) ok
      (pure_after-IsPrompt ask (λ v. return_if (good v) v) default p))

module _ (site : Site) (trim_empty : site.text.trim_space [] ≡ []) where
  prompt-IsPrompt : (default : Bytes) → IsPrompt (prompt site default) default
  unfolding prompt value_or
  prompt-IsPrompt default =
      subst (λ t. IsPrompt (prompt site default) (value_or t default)) trim_empty
        (pure_after-IsPrompt read_line (λ line. value_or (site.text.trim_space line) default) []
          read_line-IsPrompt)

  -- A required value with a default.
  pub prompt_required-IsPrompt :
      (default : Bytes) → default ≢ [] → IsPrompt (prompt_required site default) default
  unfolding prompt_required asks
  prompt_required-IsPrompt default some_default =
      asks-IsPrompt (λ v. not (bytes_eq v [])) (prompt site default) default
        (ground (arith, some_default, bytes_eq_iff default [])) (prompt-IsPrompt default)

  -- If trimming leaves the empty text alone, promptPort with a default that is a port from 1
  -- to 65535 returns whenever the lines of the input can be read, reads a line in each round
  -- and changes nothing else, and returns its default at the end of the input.
  pub prompt_port-IsPrompt :
      (default : Bytes)
      → default ≢ []
      → is_number site 1 65535 (site.text.atoi default) ≡ true
      → IsPrompt (prompt_port site default) default
  unfolding prompt_port asks
  prompt_port-IsPrompt default some_default ok =
      asks-IsPrompt (λ v. is_number site 1 65535 (site.text.atoi v)) (prompt_required site default)
        default ok (prompt_required-IsPrompt default some_default)

  pub prompt_identifier-IsPrompt :
      (default : Bytes)
      → valid_identifier default ≡ true
      → IsPrompt (prompt_identifier site default) default
  unfolding prompt_identifier asks
  prompt_identifier-IsPrompt default ok =
      asks-IsPrompt valid_identifier (prompt_required site default) default ok
        (prompt_required-IsPrompt default (valid_identifier-nonempty default ok))

  -- A required value without a default, at the end of the input.
  required_round :
      (h : Host) → h.input ≡ [] → asks (λ v. not (bytes_eq v [])) (prompt site []) h ≡ done none h
  unfolding asks bytes_eq
  required_round h nil =
      ap (λ x. bind x (λ v. pure (return_if (not (bytes_eq v [])) v)))
        ((prompt-IsPrompt []).at_end h nil)

  -- If trimming leaves the empty text alone, promptRequired without a default never returns at
  -- the end of the input, however many rounds it gets.
  pub prompt_required_forever :
      (h : Host)
      → h.input ≡ []
      → (prompt_required site [] h ≡ forever)
        × ((fuel : ℕ)
            → again fuel
                (do value ← prompt site []; pure (return_if (not (bytes_eq value [])) value))
                h
              ≡ forever)
  unfolding asks prompt_required repeat
  prompt_required_forever h nil =
      let all = λ (fuel : ℕ).
        again_forever (asks (λ v. not (bytes_eq v [])) (prompt site []))
          (asks-IsReading (λ v. not (bytes_eq v [])) (prompt site []) (prompt-IsPrompt []).reading)
          h fuel (required_round h nil) in
      (all (length h.input + 1), all)

module _ (site : Site) where
  pub prompt_identifier-Returns :
      (default : Bytes) (h : Host)
      → Returns (λ v. valid_identifier v ≡ true) (prompt_identifier site default h)
  unfolding prompt_identifier asks
  prompt_identifier-Returns default h =
      asks-Returns valid_identifier (prompt_required site default) h

  pub prompt_interface-Returns :
      (default : Bytes) (h : Host)
      → Returns (λ v. valid_interface v ≡ true) (prompt_interface site default h)
  unfolding prompt_interface asks
  prompt_interface-Returns default h = asks-Returns valid_interface (prompt_required site default) h

  pub prompt_cidr-Returns :
      (default : Bytes) (h : Host)
      → Returns (λ v. site.text.is_cidr v ≡ true) (prompt_cidr site default h)
  unfolding prompt_cidr asks
  prompt_cidr-Returns default h = asks-Returns site.text.is_cidr (prompt_required site default) h

  pub prompt_port-Returns :
      (default : Bytes) (h : Host)
      → Returns (λ v. is_number site 1 65535 (site.text.atoi v) ≡ true) (prompt_port site default h)
  unfolding prompt_port asks
  prompt_port-Returns default h =
      asks-Returns (λ v. is_number site 1 65535 (site.text.atoi v)) (prompt_required site default) h

  pub yes_no-IsReading : (default : Bool) → IsReading (yes_no site default)
  unfolding yes_no
  yes_no-IsReading default = repeat-IsReading _ (
      pure_after-IsReading read_line
        (λ line. yes_or_no site default (site.text.to_lower (site.text.trim_space line)))
        read_line-IsReading)

  pub prompt_identifier-IsReading : (default : Bytes) → IsReading (prompt_identifier site default)
  unfolding prompt_identifier prompt_required prompt asks
  prompt_identifier-IsReading default =
      repeat-IsReading (asks valid_identifier (prompt_required site default)) (
        asks-IsReading valid_identifier (prompt_required site default) (
          repeat-IsReading (asks (λ v. not (bytes_eq v [])) (prompt site default)) (
            asks-IsReading (λ v. not (bytes_eq v [])) (prompt site default)
              (pure_after-IsReading read_line (λ line. value_or (site.text.trim_space line) default)
                read_line-IsReading))))

-- ===== src/Console.antt =====
-- internal/admin/admin.go, the prompts of the console and the small functions on texts beside them.
-- A prompt asks again until it takes a line. At the end of the input each read returns an empty line.
pub mod Loops
pub mod Tests
use unknowntunnel.Prelude.{
  ℕ, zero, suc, ◌+◌, Bool, true, false, not, ◌&&◌, ◌||◌, ltb, leb, ◌==◌, List, [], ◌∷◌, ◌++◌, Bytes,
  bytes_eq, codes, Option, none, some, if◌then◌else◌, length, ℤ, pos, negsuc,
}
use unknowntunnel.Config.{Text, valid_identifier, valid_interface, between, mem}
use unknowntunnel.Site.{
  Site, Host, Answer, done, failed, forever, Console, bind, ◌>>=◌, ◌>>◌, pure, fail, Error,
  read_failed,
}

-- `for { body }`, left by a body that returns: at most `fuel` rounds.
unfoldable pub again : {A : Type 0} → ℕ → Console (Option A) → Console A
again zero body h = forever
again (suc fuel) body h = elim (body h) [
  | done (some a) h' ↦ done a h'
  | done none h' ↦ again fuel body h'
  | failed e h' ↦ failed e h'
  | forever ↦ forever
]

-- The rounds that can differ: one for each line, and one at the end of the input.
unfoldable pub repeat : {A : Type 0} → Console (Option A) → Console A
unfolding again
repeat body h = again (length h.input + 1) body h

-- `if good { return value, nil }`, at the end of a round.
abbrev pub return_if : {A : Type 0} → Bool → A → Option A
return_if true a = some a
return_if false a = none

-- `m.in.ReadString('\n')`, with an end of input that is no error.
unfoldable pub take_line : List (Option Bytes) → Console Bytes
take_line [] h = done [] h
take_line (none ∷ rest) h = failed read_failed (record h { input = rest })
take_line (some line ∷ rest) h = done line (record h { input = rest })

unfoldable pub read_line : Console Bytes
unfolding take_line
read_line h = take_line h.input h

unfoldable pub value_or : Bytes → Bytes → Bytes
value_or [] fallback = fallback
value_or (b ∷ bs) fallback = b ∷ bs

module _ (site : Site) where
  unfoldable pub prompt : Bytes → Console Bytes
  unfolding read_line value_or
  prompt default = do line ← read_line; pure (value_or (site.text.trim_space line) default)

  unfoldable pub prompt_required : Bytes → Console Bytes
  unfolding repeat prompt
  prompt_required default =
      repeat (do value ← prompt default; pure (return_if (not (bytes_eq value [])) value))

  unfoldable pub prompt_identifier : Bytes → Console Bytes
  unfolding prompt_required
  prompt_identifier default =
      repeat (do value ← prompt_required default; pure (return_if (valid_identifier value) value))

  pub prompt_interface : Bytes → Console Bytes
  unfolding prompt_required
  prompt_interface default =
      repeat (do value ← prompt_required default; pure (return_if (valid_interface value) value))

  pub prompt_cidr : Bytes → Console Bytes
  unfolding prompt_required
  prompt_cidr default =
      repeat (do value ← prompt_required default; pure (return_if (site.text.is_cidr value) value))

  unfoldable pub is_number : ℕ → ℕ → Option ℤ → Bool
  is_number lo hi none = false
  is_number lo hi (some n) = between lo hi n

  unfoldable pub prompt_port : Bytes → Console Bytes
  unfolding prompt_required is_number
  prompt_port default = repeat (do
    value ← prompt_required default
    pure (return_if (is_number 1 65535 (site.text.atoi value)) value))

  pub number_in : ℕ → ℕ → Option ℤ → Option ℤ
  number_in lo hi none = none
  number_in lo hi (some n) = return_if (between lo hi n) n

  pub prompt_int : ℤ → ℕ → ℕ → Console ℤ
  unfolding prompt number_in
  prompt_int default lo hi =
      repeat (do value ← prompt (site.itoa default); pure (number_in lo hi (site.text.atoi value)))

  unfoldable pub yes_or_no : Bool → Bytes → Option Bool
  yes_or_no default value =
      if bytes_eq value []
      then some default
      else if bytes_eq value (codes "y") || bytes_eq value (codes "yes")
      then some true
      else return_if (bytes_eq value (codes "n") || bytes_eq value (codes "no")) false

  unfoldable pub yes_no : Bool → Console Bool
  unfolding yes_or_no
  yes_no default = repeat (do
    line ← read_line
    pure (yes_or_no default (site.text.to_lower (site.text.trim_space line))))

  unfoldable pub choice : List Bytes → Bytes → Console Bytes
  choice options default = repeat (do
    value ← prompt default
    let lower = site.text.to_lower value
    pure (return_if (mem lower options) lower))

  unfoldable pub first_endpoint : List Bytes → Option (Bytes × Bytes)
  first_endpoint [] = none
  first_endpoint (value ∷ values) =
      let rest = first_endpoint values in
      if bytes_eq value []
      then rest
      else elim (site.text.split_host_port value) [ none ↦ rest | some pair ↦ some pair ]

  pub lowered_mem : Bytes → List Bytes → Bool
  lowered_mem name [] = false
  lowered_mem name (p ∷ ps) = bytes_eq (site.text.to_lower p) name || lowered_mem name ps

  pub protocols_choice : List Bytes → Bytes
  unfolding lowered_mem
  protocols_choice ps =
      let udp = lowered_mem (codes "udp") ps in
      if lowered_mem (codes "tcp") ps && udp
      then codes "both"
      else if udp
      then codes "udp"
      else codes "tcp"

  -- `strings.Split` at one byte, never an empty list.
  pub split_at : ℕ → Bytes → Bytes × List Bytes
  split_at separator [] = ([], [])
  split_at separator (b ∷ bs) =
      let (part, parts) = split_at separator bs in
      if b == separator then ([], part ∷ parts) else (b ∷ part, parts)

  pub trimmed_parts : List Bytes → List Bytes
  trimmed_parts [] = []
  trimmed_parts (part ∷ parts) =
      let rest = trimmed_parts parts in
      let trimmed = site.text.trim_space part in
      if bytes_eq trimmed [] then rest else trimmed ∷ rest

  pub split_csv : Bytes → List Bytes
  unfolding split_at trimmed_parts
  split_csv value =
      let (part, parts) = split_at 44 value in
      if bytes_eq (site.text.trim_space value) [] then [] else trimmed_parts (part ∷ parts)

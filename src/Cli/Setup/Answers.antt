-- ===== src/Cli/Setup/Answers.antt =====
-- internal/cli/wallet.go: the lines that `wallet init` reads behind its first two questions, and what it
-- takes from them.
use hash256_miner.Base.{
  ℕ, ◌≡◌, ◌⊎◌, inl, inr, refl, Bool, true, false, ◌||◌, Bool-cases, List, [], ◌∷◌, Bytes, codes,
  text_eq, to_lower, trim_0x, trim_space, ok, err, Err, Exec, pure, fail, errorf, wrapping, ◌>>=◌,
  resume_rule, >>=-ok, >>=-run, wrapping-ok, wrapping-run, ok-injective, if◌then◌else◌,
}
use hash256_miner.Wallet.Hd.{generate_mnemonic}
use hash256_miner.Wallet.Hd.Generated.{generate_mnemonic-new}
use hash256_miner.Cli.Prompt.{
  Session, read_string, in_session, or_default, is_yes, ask_choice, ask_string, ask_yes_no,
}
use hash256_miner.Cli.Machine.{Machine}
use hash256_miner.Cli.Setup.{one_or_two, may_overwrite, private_digits, private_text, mnemonic_text}

-- A line that says yes.
abbrev pub SaysYes : Bytes → Type 0
SaysYes line =
    (text_eq (to_lower (trim_space line)) (codes "y") ≡ true)
    ⊎ (text_eq (to_lower (trim_space line)) (codes "yes") ≡ true)

-- The number that is entered: `5` at the end of the input and for an empty line.
pub data Entered : List Bytes → Bytes → Type 0 where
  no_line : Entered [] (codes "5")
  blank :
      {line : Bytes} {lines : List Bytes}
      → trim_space line ≡ []
      → Entered (line ∷ lines) (codes "5")
  typed :
      {line text : Bytes} {lines : List Bytes} {b : ℕ}
      → trim_space line ≡ b ∷ text
      → Entered (line ∷ lines) (b ∷ text)

or_default_cases :
    (line : Bytes) (lines : List Bytes) (t : Bytes)
    → trim_space line ≡ t
    → Entered (line ∷ lines) (or_default (codes "5") t)
unfolding or_default
or_default_cases line lines [] e = blank e
or_default_cases line lines (b ∷ t) e = typed e

yes_cases : (a b : Bool) → (a || b) ≡ true → (a ≡ true) ⊎ (b ≡ true)
yes_cases true b h = inl refl
yes_cases false b h = inr h

is_yes-SaysYes :
    (t : Bytes)
    → is_yes false t ≡ true
    → (text_eq t (codes "y") ≡ true) ⊎ (text_eq t (codes "yes") ≡ true)
unfolding is_yes
is_yes-SaysYes [] h = cc
is_yes-SaysYes (b ∷ t) h = yes_cases (text_eq (b ∷ t) (codes "y")) _ h

module _ {W : Type 0} where
  ask_choice-world :
      (valid : List Bytes) (def : Bytes) (s : Session W)
      → (ask_choice valid def s).1.world ≡ s.world
  unfolding ask_choice
  ask_choice-world valid def s = refl

  pub ask_string-Entered :
      (input : List Bytes) (w : W) {answer : Bytes}
      → (ask_string (codes "5") (record { input = input; world = w })).0 ≡ ok answer
      → Entered input answer
        × ((ask_string (codes "5") (record { input = input; world = w })).1.world ≡ w)
  unfolding ask_string read_string
  ask_string-Entered [] w h = rw (← ok-injective h) (no_line, refl)
  ask_string-Entered (line ∷ lines) w h =
      rw (← ok-injective h) (or_default_cases line lines (trim_space line) refl, refl)

module _ (m : Machine) where
  open m use {env, hd}
  open env use {net}
  open net use {W, Key}

  -- The question in front of a file: it is asked where the file exists, and answered with yes.
  pub data Overwrites (path : Bytes) : Session W → Session W → Type 0 where
    new_file :
        {s : Session W} {e : Err}
        → (m.stat path s.world).0 ≡ err e
        → Overwrites path s (record s { world = (m.stat path s.world).1 })
    agreed :
        {line : Bytes} {lines : List Bytes} {w : W}
        → (m.stat path w).0 ≡ ok tt
        → SaysYes line
        → Overwrites path
            (record { input = line ∷ lines; world = w })
            (record { input = lines; world = (m.stat path w).1 })

  agreed_input :
      (path : Bytes) (input : List Bytes) (w v : W)
      → (m.stat path w).0 ≡ ok tt
      → v ≡ (m.stat path w).1
      → ((do
        answer ← ask_yes_no false
        if◌then◌else◌ {A = Exec (Session W) (Unit {0})} answer
            (pure tt)
            (fail (errorf "cancelled")))
          (record { input = input; world = v })).0
        ≡ ok tt
      → Overwrites path
          (record { input = input; world = w })
          ((do
            answer ← ask_yes_no false
            if◌then◌else◌ {A = Exec (Session W) (Unit {0})} answer
                (pure tt)
                (fail (errorf "cancelled")))
            (record { input = input; world = v })).1
  unfolding ask_yes_no read_string
  agreed_input path [] w v found same h = cc
  agreed_input path (line ∷ lines) w v found same h =
      elim (Bool-cases (is_yes false (to_lower (trim_space line)))) [
        | inl agrees ↦
            rw (agrees, same) (agreed found (is_yes-SaysYes (to_lower (trim_space line)) agrees))
        | inr refuses ↦ let refused = rw refuses at h in cc
      ]

  pub may_overwrite-Overwrites :
      (path : Bytes) (s : Session W)
      → (may_overwrite m path s).0 ≡ ok tt
      → Overwrites path s (may_overwrite m path s).1
  unfolding may_overwrite
  may_overwrite-Overwrites path s =
      let r = m.stat path s.world in
      resume_rule (λ out. out.0 ≡ ok tt → Overwrites path s out.1) r.0 _ _
        (record s { world = r.1 }) (λ u found. agreed_input path s.input s.world r.1 found refl)
        (λ e lost h. new_file lost) (λ p e h. cc)

  -- The private key's text: the line that is pasted, without white space around it and a `0x` in front, or
  -- the text of the key that is generated.
  pub data PrivateText : Bool → Session W → Bytes → Session W → Type 0 where
    pasted :
        {line : Bytes} {lines : List Bytes} {w : W}
        → PrivateText true
            (record { input = line ∷ lines; world = w })
            (trim_space (trim_0x (trim_space line)))
            (record { input = lines; world = w })
    generated :
        {s : Session W} {key : Key}
        → (m.generate_key s.world).0 ≡ ok key
        → PrivateText false s (m.key_hex key) (record s { world = (m.generate_key s.world).1 })

  pasted_key :
      (input : List Bytes) (w : W) {priv : Bytes}
      → (private_text m true (record { input = input; world = w })).0 ≡ ok priv
      → PrivateText true
          (record { input = input; world = w })
          priv
          (private_text m true (record { input = input; world = w })).1
  unfolding private_text private_digits read_string
  pasted_key [] w h = cc
  pasted_key (line ∷ lines) w h = rw (← ok-injective h) pasted

  pub private_text-PrivateText :
      (importing : Bool) (s : Session W) {priv : Bytes}
      → (private_text m importing s).0 ≡ ok priv
      → PrivateText importing s priv (private_text m importing s).1
  unfolding private_text
  private_text-PrivateText true s h = pasted_key s.input s.world h
  private_text-PrivateText false s h =
      let call = wrapping "gen key: %w" m.generate_key in
      let (key, made, r, run) = >>=-run (in_session call) _ s h in
      let same = wrapping-run "gen key: %w" m.generate_key s.world made in
      rw (run, ← ok-injective r, same)
        (generated (wrapping-ok "gen key: %w" m.generate_key s.world made))

  -- The mnemonic: the line that is pasted, without white space around it, or one that bip39 makes of 128
  -- or 256 bits of new entropy.
  pub data Origin : Bool → Session W → Bytes → Session W → Type 0 where
    pasted_words :
        {line : Bytes} {lines : List Bytes} {w : W}
        → hd.mnemonic_valid (trim_space line) ≡ true
        → Origin true
            (record { input = line ∷ lines; world = w })
            (trim_space line)
            (record { input = lines; world = w })
    made_words :
        {s t : Session W} {bits : ℕ} {entropy words : Bytes}
        → (bits ≡ 128) ⊎ (bits ≡ 256)
        → (m.new_entropy bits s.world).0 ≡ ok entropy
        → hd.new_mnemonic entropy ≡ ok words
        → Origin false s words t

  pasted_line :
      (input : List Bytes) (w : W) {words : Bytes}
      → (mnemonic_text m true (record { input = input; world = w })).0 ≡ ok words
      → Origin true
          (record { input = input; world = w })
          words
          (mnemonic_text m true (record { input = input; world = w })).1
  unfolding mnemonic_text read_string
  pasted_line [] w h = cc
  pasted_line (line ∷ lines) w h = elim (Bool-cases (hd.mnemonic_valid (trim_space line))) [
    | inl valid ↦ rw (valid, ← ok-injective (rw valid at h)) (pasted_words valid)
    | inr invalid ↦ let refused = rw invalid at h in cc
  ]

  confirmed_words :
      (b : Bool) (words' : Bytes) (s : Session W) {words : Bytes}
      → (if◌then◌else◌ {A = Exec (Session W) Bytes} b (pure words') (fail (errorf "cancelled")) s).0
        ≡ ok words
      → words' ≡ words
  confirmed_words true words' s h = ok-injective h
  confirmed_words false words' s h = cc

  abbrev size_of : Bool → ℕ
  size_of b = if b then 128 else 256

  either_size : (b : Bool) → (size_of b ≡ 128) ⊎ (size_of b ≡ 256)
  either_size true = inl refl
  either_size false = inr refl

  pub mnemonic_text-Origin :
      (importing : Bool) (s : Session W) {words : Bytes}
      → (mnemonic_text m importing s).0 ≡ ok words
      → Origin importing s words (mnemonic_text m importing s).1
  unfolding mnemonic_text
  mnemonic_text-Origin true s h = pasted_line s.input s.world h
  mnemonic_text-Origin false s h =
      let (bits, _, r₁) = >>=-ok (ask_choice one_or_two (codes "2")) _ s h in
      let size : ℕ = if text_eq bits (codes "1") then 128 else 256 in
      let (words', made, r₂) =
        >>=-ok (in_session (generate_mnemonic hd m.new_entropy size)) _ _ r₁ in
      let (answer, _, r₃) = >>=-ok (ask_yes_no false) _ _ r₂ in
      let (entropy, drawn, e) = generate_mnemonic-new hd m.new_entropy size _ made in
      rw (← confirmed_words answer words' _ r₃) (
        made_words (either_size (text_eq bits (codes "1")))
          (rw (ask_choice-world one_or_two (codes "2") s) at drawn) e)

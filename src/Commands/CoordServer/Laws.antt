-- ===== src/Commands/CoordServer/Laws.antt =====
-- cmd/coord-server/main.go: which tokens the server knows.
use qrystal.Prelude.{
  ◌≡◌, refl, sym, ap, ◌∙◌, ◌⊎◌, inl, inr, Bool, false, Option, none, some, List, [], ◌∷◌, arith,
  if◌then◌else◌, ◌==◌, list_eq, nat_eq, Outcome, ok, failed, panicked, ◌>>=◌, Bool-cases,
  Option-cases, subst,
}
use qrystal.Text.{Bytes}
use qrystal.Util.Token.{TokenHash, parse_token_hash}
use qrystal.Coord.{TokenInfo}
use qrystal.Commands.CoordServer.{put_token, convert_loop, convert_tokens}

-- The text is of this hash.
abbrev pub is_text_of : TokenHash → Outcome TokenHash → Bool
is_text_of k (ok h) = h.raw == k.raw
is_text_of k failed = false
is_text_of k panicked = false

-- What the last entry for a hash says.
abbrev pub last_for : List (Bytes × TokenInfo) → TokenHash → Option TokenInfo
last_for [] k = none
last_for (entry ∷ entries) k = elim (last_for entries k) [
  | some info ↦ some info
  | none ↦ if is_text_of k (parse_token_hash entry.0) then some entry.1 else none
]

abbrev pub or_else : Option TokenInfo → Option TokenInfo → Option TokenInfo
or_else (some info) other = some info
or_else none other = other

-- Every key of the entries is the text of a hash.
abbrev pub AreTexts : List (Bytes × TokenInfo) → Type 0
AreTexts [] = Unit
AreTexts (entry ∷ entries) =
    ((h : TokenHash) × (parse_token_hash entry.0 ≡ ok h)) × AreTexts entries

-- The first key that is not decides how the conversion ends.
abbrev pub EndsAs : List (Bytes × TokenInfo) → Outcome (TokenHash → Option TokenInfo) → Type 0
EndsAs [] r = ⊥
EndsAs (entry ∷ entries) r =
    ((parse_token_hash entry.0 ≡ failed) × (r ≡ failed))
    ⊎ ((parse_token_hash entry.0 ≡ panicked) × (r ≡ panicked))
    ⊎ (((h : TokenHash) × (parse_token_hash entry.0 ≡ ok h)) × EndsAs entries r)

IsConverted : (TokenHash → Option TokenInfo) → List (Bytes × TokenInfo) → Type 0
IsConverted before entries =
    (AreTexts entries
      × ((tokens : TokenHash → Option TokenInfo) × (convert_loop before entries ≡ ok tokens)
          × ((k : TokenHash) → tokens k ≡ or_else (last_for entries k) (before k))))
    ⊎ EndsAs entries (convert_loop before entries)

convert_loop-step :
    (before : TokenHash → Option TokenInfo) (entry : Bytes × TokenInfo)
    (entries : List (Bytes × TokenInfo)) (h : TokenHash)
    → parse_token_hash entry.0 ≡ ok h
    → convert_loop before (entry ∷ entries) ≡ convert_loop (put_token before h entry.1) entries
unfolding convert_loop
convert_loop-step before entry entries h e =
    ap (λ r. r >>= (λ x. convert_loop (put_token before x entry.1) entries)) e

convert_loop-failed :
    (before : TokenHash → Option TokenInfo) (entry : Bytes × TokenInfo)
    (entries : List (Bytes × TokenInfo))
    → parse_token_hash entry.0 ≡ failed
    → convert_loop before (entry ∷ entries) ≡ failed
unfolding convert_loop
convert_loop-failed before entry entries e =
    ap (λ r. r >>= (λ x. convert_loop (put_token before x entry.1) entries)) e

convert_loop-panicked :
    (before : TokenHash → Option TokenInfo) (entry : Bytes × TokenInfo)
    (entries : List (Bytes × TokenInfo))
    → parse_token_hash entry.0 ≡ panicked
    → convert_loop before (entry ∷ entries) ≡ panicked
unfolding convert_loop
convert_loop-panicked before entry entries e =
    ap (λ r. r >>= (λ x. convert_loop (put_token before x entry.1) entries)) e

last_for-step :
    (before : TokenHash → Option TokenInfo) (entry : Bytes × TokenInfo)
    (entries : List (Bytes × TokenInfo)) (h k : TokenHash)
    → parse_token_hash entry.0 ≡ ok h
    → or_else (last_for entries k) (put_token before h entry.1 k)
      ≡ or_else (last_for (entry ∷ entries) k) (before k)
last_for-step before entry entries h k e = elim (Option-cases (last_for entries k)) [
  | inl n ↦ elim (Bool-cases (h.raw == k.raw)) [
    | inl q ↦ ground (arith, ap (is_text_of k) e)
    | inr q ↦ ground (arith, ap (is_text_of k) e)
  ]
  | inr (info, n) ↦ ground arith
]

Outcome-cases :
    {A : Type 0} (x : Outcome A) → ((a : A) × (x ≡ ok a)) ⊎ ((x ≡ failed) ⊎ (x ≡ panicked))
Outcome-cases (ok a) = inl (a, refl)
Outcome-cases failed = inr (inl refl)
Outcome-cases panicked = inr (inr refl)

convert_loop-IsConverted :
    (before : TokenHash → Option TokenInfo) (entries : List (Bytes × TokenInfo))
    → IsConverted before entries
unfolding IsConverted convert_loop
convert_loop-IsConverted before [] = inl (tt, (before, refl, λ k. refl))
convert_loop-IsConverted before (entry ∷ entries) =
    elim (Outcome-cases (parse_token_hash entry.0)) [
      | inr (inl e) ↦ inr (inl (e, convert_loop-failed before entry entries e))
      | inr (inr e) ↦ inr (inr (inl (e, convert_loop-panicked before entry entries e)))
      | inl (h, e) ↦
          let step = convert_loop-step before entry entries h e in
          elim (convert_loop-IsConverted (put_token before h entry.1) entries) [
            | inl (texts, (tokens, p, q)) ↦ inl (
              ((h, e), texts),
              (tokens, step ∙ p, λ k. q k ∙ last_for-step before entry entries h k e),
            )
            | inr ends ↦ inr (inr (inr ((h, e), subst (EndsAs entries) (sym step) ends)))
          ]
    ]

-- `convertTokens` either succeeds, and then every key is the text of a hash, and the map gives for
-- a hash what the last entry with a text of it says; or it ends as `ParseTokenHash` does on the first
-- key that is not the text of a hash, with an error or a panic.
pub convert_tokens-cases :
    (entries : List (Bytes × TokenInfo))
    → (AreTexts entries
        × ((tokens : TokenHash → Option TokenInfo) × (convert_tokens entries ≡ ok tokens)
            × ((k : TokenHash) → tokens k ≡ last_for entries k)))
      ⊎ EndsAs entries (convert_tokens entries)
unfolding convert_tokens IsConverted
convert_tokens-cases entries = elim (convert_loop-IsConverted (λ h. none) entries) [
  | inl (texts, (tokens, p, q)) ↦
      inl (texts, (tokens, p, λ k. q k ∙ or_else_none (last_for entries k)))
  | inr ends ↦ inr ends
]
  where
    or_else_none : (o : Option TokenInfo) → or_else o none ≡ o
    or_else_none none = refl
    or_else_none (some info) = refl

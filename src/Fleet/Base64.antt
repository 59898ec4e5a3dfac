-- ===== src/Fleet/Base64.antt =====
-- The base64 codec of crates/barista-fleet/src/desired.rs (`base64_bytes`). A byte is a number below
-- 256 and a text is the list of its bytes.
pub mod RoundTrip
use mathlib.Core.Path.{subst}
use barista_sh.Base.{
  inl, inr, ℕ, zero, suc, ◌+◌, ◌*◌, ◌/◌, ◌%◌, ◌^◌, ◌-◌, ◌≤◌, ◌<◌, ◌==◌, leb, ltb, Bool, true, false,
  List, [], ◌∷◌, ◌++◌, All, Option, none, some, not, ◌&&◌, Bool-cases, sym, ◌∙◌, ap, if◌then◌else◌,
  ◌≡◌, refl, arith,
}

-- `ALPHABET`
abbrev pub alphabet : List ℕ
alphabet =
    65 ∷ 66 ∷ 67 ∷ 68 ∷ 69 ∷ 70 ∷ 71 ∷ 72 ∷ 73 ∷ 74 ∷ 75 ∷ 76 ∷ 77 ∷ 78 ∷ 79 ∷ 80 ∷ 81 ∷ 82 ∷ 83
    ∷ 84 ∷ 85 ∷ 86 ∷ 87 ∷ 88 ∷ 89 ∷ 90 ∷ 97 ∷ 98 ∷ 99 ∷ 100 ∷ 101 ∷ 102 ∷ 103 ∷ 104 ∷ 105 ∷ 106
    ∷ 107 ∷ 108 ∷ 109 ∷ 110 ∷ 111 ∷ 112 ∷ 113 ∷ 114 ∷ 115 ∷ 116 ∷ 117 ∷ 118 ∷ 119 ∷ 120 ∷ 121 ∷ 122
    ∷ 48 ∷ 49 ∷ 50 ∷ 51 ∷ 52 ∷ 53 ∷ 54 ∷ 55 ∷ 56 ∷ 57 ∷ 43 ∷ 47 ∷ []

-- `ALPHABET[i]`, which is only read below its 64 entries
abbrev pub entry : ℕ → List ℕ → ℕ
entry i [] = 0
entry zero (a ∷ rest) = a
entry (suc i) (a ∷ rest) = entry i rest

unfoldable pub symbol : ℕ → ℕ
symbol v = entry v alphabet

abbrev pub index_from : ℕ → ℕ → List ℕ → Option ℕ
index_from i c [] = none
index_from i c (a ∷ rest) = if a == c then some i else index_from (suc i) c rest

-- `ALPHABET.iter().position(..)`
unfoldable pub position : ℕ → Option ℕ
position c = index_from 0 c alphabet

-- `b'='`
abbrev pub pad : ℕ
pad = 61

-- `encode`
unfoldable pub encode : List ℕ → List ℕ
encode [] = []
encode (a ∷ []) =
    let n = a * 2 ^ 16 in symbol (n / 2 ^ 18 % 64) ∷ symbol (n / 2 ^ 12 % 64) ∷ pad ∷ pad ∷ []
encode (a ∷ b ∷ []) =
    let n = a * 2 ^ 16 + b * 2 ^ 8 in
    symbol (n / 2 ^ 18 % 64) ∷ symbol (n / 2 ^ 12 % 64) ∷ symbol (n / 2 ^ 6 % 64) ∷ pad ∷ []
encode (a ∷ b ∷ c ∷ rest) =
    let n = a * 2 ^ 16 + b * 2 ^ 8 + c in
    symbol (n / 2 ^ 18 % 64)
    ∷ symbol (n / 2 ^ 12 % 64)
    ∷ symbol (n / 2 ^ 6 % 64)
    ∷ symbol (n % 64)
    ∷ encode rest

-- the loop of `decode`: the bits read and not yet given out, and how many they are
unfoldable pub decode_from : ℕ → ℕ → List ℕ → Option (List ℕ)
decode_from acc bits [] = some []
decode_from acc bits (c ∷ cs) = if c == pad then decode_from acc bits cs else elim (position c) [
  | none ↦ none
  | some v ↦
      let next = acc * 2 ^ 6 % 2 ^ 32 + v in
      if leb 8 (bits + 6)
      then elim (decode_from next (bits + 6 - 8) cs) [
        | none ↦ none
        | some out ↦ some (next / 2 ^ (bits + 6 - 8) % 256 ∷ out)
      ]
      else decode_from next (bits + 6) cs
]

-- `decode`
unfoldable pub decode : List ℕ → Option (List ℕ)
unfolding decode_from
decode text = decode_from 0 0 text

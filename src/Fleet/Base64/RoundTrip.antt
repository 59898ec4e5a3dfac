-- ===== src/Fleet/Base64/RoundTrip.antt =====
-- The base64 codec of crates/barista-fleet/src/desired.rs decodes what it encodes.
use mathlib.Core.Path.{subst}
use barista_sh.Base.{
  inl, inr, ℕ, zero, suc, ◌+◌, ◌*◌, ◌/◌, ◌%◌, ◌^◌, ◌-◌, ◌<◌, ◌==◌, leb, Bool, true, false, List, [],
  ◌∷◌, All, Option, none, some, not, ◌&&◌, Bool-cases, ◌∙◌, ap, ◌≡◌, refl, arith,
}
use barista_sh.Fleet.Base64.{symbol, position, pad, encode, decode_from, decode}

abbrev all_below : (ℕ → Bool) → ℕ → Bool
all_below p zero = true
all_below p (suc n) = p n && all_below p n

same : (v n : ℕ) → (v == n) ≡ true → n ≡ v
same v n e = ground arith

all_below-lem : (p : ℕ → Bool) (n v : ℕ) → all_below p n ≡ true → v < n → p v ≡ true
all_below-lem p zero v h b = absurd (omega arith)
all_below-lem p (suc n) v h b = elim (Bool-cases (v == n)) [
  | inl e ↦ subst (λ x. p x ≡ true) (same v n e) (ground (arith, h))
  | inr e ↦ all_below-lem p n v (ground (arith, h)) (ground (arith, e))
]

is_some : Option ℕ → ℕ → Bool
is_some none v = false
is_some (some w) v = w == v

reads_back : ℕ → Bool
unfolding position symbol is_some
reads_back v = is_some (position (symbol v)) v && not (symbol v == pad)

reads_back-all : all_below reads_back 64 ≡ true
unfolding reads_back
reads_back-all = refl

-- A symbol of the alphabet is no padding, and is found at its own index.
position-symbol : (v : ℕ) → v < 64 → (position (symbol v) ≡ some v) × ((symbol v == pad) ≡ false)
unfolding reads_back
position-symbol v h =
    let e = all_below-lem reads_back 64 v reads_back-all h in
    (some_at (position (symbol v)) e, ground (arith, e))
  where
    some_at : (o : Option ℕ) → is_some o v && not (symbol v == pad) ≡ true → o ≡ some v
    some_at none e = absurd (ground arith)
    some_at (some w) e = ground arith

-- One symbol read with fewer than 2 bits left over from the bytes already given out.
read_two :
    (acc v : ℕ) (cs : List ℕ)
    → v < 64
    → decode_from acc 0 (symbol v ∷ cs) ≡ decode_from (acc * 2 ^ 6 % 2 ^ 32 + v) 6 cs
unfolding decode_from
read_two acc v cs h = rw ((position-symbol v h).1, (position-symbol v h).0) refl

read_out :
    (acc rest v : ℕ) (cs out : List ℕ)
    → v < 64
    → decode_from (acc * 2 ^ 6 % 2 ^ 32 + v) rest cs ≡ some out
    → decode_from acc (rest + 2) (symbol v ∷ cs)
      ≡ some ((acc * 2 ^ 6 % 2 ^ 32 + v) / 2 ^ rest % 256 ∷ out)
unfolding decode_from
read_out acc rest v cs out h e =
    rw ((position-symbol v h).1, (position-symbol v h).0, leb_eight rest, eight_less rest, e)
      (ap (λ k. some ((acc * 2 ^ 6 % 2 ^ 32 + v) / 2 ^ k % 256 ∷ out)) (eight_less rest))
  where
    leb_eight : (rest : ℕ) → leb 8 (rest + 2 + 6) ≡ true
    leb_eight rest = ground arith

    eight_less : (rest : ℕ) → rest + 2 + 6 - 8 ≡ rest
    eight_less rest = omega arith

abbrev shifted : ℕ → ℕ → ℕ
shifted acc v = acc * 2 ^ 6 % 2 ^ 32 + v

-- Four symbols give three bytes, whatever was left in the accumulator.
read_group :
    (acc v w x y : ℕ) (cs out : List ℕ)
    → v < 64
    → w < 64
    → x < 64
    → y < 64
    → ((a : ℕ) → decode_from a 0 cs ≡ some out)
    → decode_from acc 0 (symbol v ∷ symbol w ∷ symbol x ∷ symbol y ∷ cs)
      ≡ some (
          shifted (shifted acc v) w / 2 ^ 4 % 256
          ∷ shifted (shifted (shifted acc v) w) x / 2 ^ 2 % 256
          ∷ shifted (shifted (shifted (shifted acc v) w) x) y / 2 ^ 0 % 256
          ∷ out)
read_group acc v w x y cs out hv hw hx hy e =
    read_two acc v _ hv
    ∙ read_out (shifted acc v) 4 w _ _ hw (
        read_out (shifted (shifted acc v) w) 2 x _ _ hx
          (read_out (shifted (shifted (shifted acc v) w) x) 0 y cs out hy (e _)))

abbrev group : ℕ → ℕ → ℕ → ℕ
group a b c = a * 2 ^ 16 + b * 2 ^ 8 + c

first_byte :
    (acc a b c : ℕ)
    → a < 256
    → b < 256
    → c < 256
    → shifted (shifted acc (group a b c / 2 ^ 18 % 64)) (group a b c / 2 ^ 12 % 64) / 2 ^ 4 % 256
      ≡ a
first_byte acc a b c ha hb hc = omega arith

second_byte :
    (acc a b c : ℕ)
    → a < 256
    → b < 256
    → c < 256
    → shifted (shifted acc (group a b c / 2 ^ 12 % 64)) (group a b c / 2 ^ 6 % 64) / 2 ^ 2 % 256 ≡ b
second_byte acc a b c ha hb hc = omega arith

third_byte :
    (acc a b c : ℕ)
    → a < 256
    → b < 256
    → c < 256
    → shifted (shifted acc (group a b c / 2 ^ 6 % 64)) (group a b c % 64) / 2 ^ 0 % 256 ≡ c
third_byte acc a b c ha hb hc = omega arith

one_left :
    (acc a : ℕ)
    → a < 256
    → shifted (shifted acc (a * 2 ^ 16 / 2 ^ 18 % 64)) (a * 2 ^ 16 / 2 ^ 12 % 64) / 2 ^ 4 % 256 ≡ a
one_left acc a h = omega arith

two_left :
    (acc bcc a b : ℕ)
    → a < 256
    → b < 256
    → (shifted
            (shifted acc ((a * 2 ^ 16 + b * 2 ^ 8) / 2 ^ 18 % 64))
            ((a * 2 ^ 16 + b * 2 ^ 8) / 2 ^ 12 % 64)
          / 2 ^ 4
          % 256
        ≡ a)
      × (shifted
              (shifted bcc ((a * 2 ^ 16 + b * 2 ^ 8) / 2 ^ 12 % 64))
              ((a * 2 ^ 16 + b * 2 ^ 8) / 2 ^ 6 % 64)
            / 2 ^ 2
            % 256
          ≡ b)
two_left acc bcc a b ha hb = (omega arith, omega arith)

padding : (acc bits : ℕ) → decode_from acc bits (pad ∷ []) ≡ some []
unfolding decode_from
padding acc bits = refl

two_paddings : (acc bits : ℕ) → decode_from acc bits (pad ∷ pad ∷ []) ≡ some []
unfolding decode_from
two_paddings acc bits = refl

sextet_small : (n : ℕ) → n % 64 < 64
sextet_small n = omega arith

read_pair :
    (acc v w : ℕ) (cs out : List ℕ)
    → v < 64
    → w < 64
    → ((a : ℕ) → decode_from a 4 cs ≡ some out)
    → decode_from acc 0 (symbol v ∷ symbol w ∷ cs)
      ≡ some (shifted (shifted acc v) w / 2 ^ 4 % 256 ∷ out)
read_pair acc v w cs out hv hw e =
    read_two acc v (symbol w ∷ cs) hv ∙ read_out (shifted acc v) 4 w cs out hw (e _)

read_triple :
    (acc v w x : ℕ) (cs out : List ℕ)
    → v < 64
    → w < 64
    → x < 64
    → ((a : ℕ) → decode_from a 2 cs ≡ some out)
    → decode_from acc 0 (symbol v ∷ symbol w ∷ symbol x ∷ cs)
      ≡ some (
          shifted (shifted acc v) w / 2 ^ 4 % 256
          ∷ shifted (shifted (shifted acc v) w) x / 2 ^ 2 % 256
          ∷ out)
read_triple acc v w x cs out hv hw hx e =
    read_two acc v (symbol w ∷ symbol x ∷ cs) hv
    ∙ read_out (shifted acc v) 4 w (symbol x ∷ cs) _ hw
        (read_out (shifted (shifted acc v) w) 2 x cs out hx (e _))

nothing_left : (acc : ℕ) → decode_from acc 0 [] ≡ some []
unfolding decode_from
nothing_left acc = refl

decode_from-encode :
    (bytes : List ℕ)
    → All (λ b. b < 256) bytes
    → (acc : ℕ) → decode_from acc 0 (encode bytes) ≡ some bytes
unfolding encode
decode_from-encode [] h acc = nothing_left acc
decode_from-encode (a ∷ []) (ha, h) acc =
    let n = a * 2 ^ 16 in
    read_pair acc (n / 2 ^ 18 % 64) (n / 2 ^ 12 % 64) (pad ∷ pad ∷ []) [] (sextet_small _)
      (sextet_small _) (λ z. two_paddings z 4)
    ∙ ap (λ x. some (x ∷ [])) (one_left acc a ha)
decode_from-encode (a ∷ b ∷ []) (ha, (hb, h)) acc =
    let n = a * 2 ^ 16 + b * 2 ^ 8 in
    let both = two_left acc (shifted acc (n / 2 ^ 18 % 64)) a b ha hb in
    read_triple acc (n / 2 ^ 18 % 64) (n / 2 ^ 12 % 64) (n / 2 ^ 6 % 64) (pad ∷ []) []
      (sextet_small _) (sextet_small _) (sextet_small _) (λ z. padding z 2)
    ∙ ap some (cons2 both.0 both.1)
  where
    cons2 : {x y : ℕ} → x ≡ a → y ≡ b → ◌≡◌ {A = List ℕ} (x ∷ y ∷ []) (a ∷ b ∷ [])
    cons2 p q = cc
decode_from-encode (a ∷ b ∷ c ∷ rest) (ha, (hb, (hc, h))) acc =
    read_group acc _ _ _ _ (encode rest) rest (sextet_small _) (sextet_small _) (sextet_small _)
      (sextet_small _) (decode_from-encode rest h)
    ∙ ap some (
        cons3 (first_byte acc a b c ha hb hc) (second_byte _ a b c ha hb hc)
          (third_byte _ a b c ha hb hc))
  where
    cons3 :
        {x y z : ℕ} → x ≡ a → y ≡ b → z ≡ c → ◌≡◌ {A = List ℕ} (x ∷ y ∷ z ∷ rest) (a ∷ b ∷ c ∷ rest)
    cons3 p q r = cc

-- Decoding what was encoded gives back the bytes, at every length, however the accumulator wraps.
pub decode-encode : (bytes : List ℕ) → All (λ b. b < 256) bytes → decode (encode bytes) ≡ some bytes
unfolding decode
decode-encode bytes h = decode_from-encode bytes h 0

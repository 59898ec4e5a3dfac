-- ===== src/Fleet/History.antt =====
-- The lease records that a name has had, newest first, each with the version it was stored under;
-- and what a program may do to that history without breaking the succession of owners.
use barista_sh.Base.{◌+◌, ◌%◌, ◌≤◌, ◌<◌, List, [], ◌∷◌, length, In, ◌≡◌, ◌⊎◌, inl, inr, arith}
use barista_sh.Base.Int.{u64_mod}
use barista_sh.Fleet.Record.{Lease}

-- The same owner keeps its epoch, or the epoch moves on by one.
abbrev pub Follows : Lease → Lease → Type 0
Follows prev next =
    ((next.owner ≡ prev.owner) × (next.epoch ≡ prev.epoch))
    ⊎ (next.epoch ≡ (prev.epoch + 1) % u64_mod)

abbrev pub Writes : Type 0 → Type 0
Writes Version = List (Lease × Version)

abbrev pub Chain : {Version : Type 0} → Writes Version → Type 0
Chain [] = Unit
Chain ((l, v) ∷ []) = l.epoch ≡ 1
Chain ((l, v) ∷ (k, w) ∷ h) = Follows k l × Chain ((k, w) ∷ h)

abbrev pub Extends : {Version : Type 0} → Writes Version → Writes Version → Type 0
Extends {Version} h g = (x : Lease × Version) → In x h → In x g

module _ {Version : Type 0} where
  Chain-tail : (x : Lease × Version) (h : Writes Version) → Chain (x ∷ h) → Chain h
  Chain-tail x [] c = tt
  Chain-tail x (y ∷ h) c = c.1

  epoch-le-length :
      (l : Lease) (v : Version) (h : Writes Version)
      → Chain ((l, v) ∷ h)
      → l.epoch ≤ length ((l, v) ∷ h)
  epoch-le-length l v [] c = omega arith
  epoch-le-length l v ((k, w) ∷ h) c = ground (arith, epoch-le-length k w h c.1)

  -- No record is of a later epoch than the newest, and one of its epoch is its owner's.
  pub newest :
      (l k : Lease) (v w : Version) (h : Writes Version)
      → Chain ((l, v) ∷ h)
      → length h + 1 < u64_mod
      → In (k, w) ((l, v) ∷ h)
      → (k.epoch ≤ l.epoch) × (k.epoch ≡ l.epoch → k.owner ≡ l.owner)
  newest l k v w h c short (inl e) = (ground arith, λ q. ground arith)
  newest l k v w [] c short (inr m) = absurd m
  newest l k v w ((j, u) ∷ h) c short (inr m) =
      let older = newest j k u w h c.1 (omega arith) m in
      let bound = epoch-le-length j u h c.1 in (ground arith, λ q. ground (arith, older.1))

  -- In a history of fewer than 2^64 - 1 records, one epoch has one owner.
  pub one_owner :
      (h : Writes Version) (l k : Lease) (v w : Version)
      → Chain h
      → length h < u64_mod
      → In (l, v) h
      → In (k, w) h
      → l.epoch ≡ k.epoch
      → l.owner ≡ k.owner
  one_owner [] l k v w c short m n e = absurd m
  one_owner ((j, u) ∷ h) l k v w c short (inl a) n e =
      let found = newest j k u w h c (omega arith) n in ground (arith, found.1)
  one_owner ((j, u) ∷ h) l k v w c short (inr a) (inl b) e =
      let found = newest j l u v h c (omega arith) (inr a) in ground (arith, found.1)
  one_owner ((j, u) ∷ h) l k v w c short (inr a) (inr b) e =
      one_owner h l k v w (Chain-tail (j, u) h c) (omega arith) a b e

-- ===== src/ItchGen/Slots.antt =====
-- Where the parts of a built message stand, as the reference book unpacks them.
use mathlib.Core.List.{append-nil}
use fpga_algotrading.Prelude.{
  ℕ, zero, ◌/◌, ◌%◌, ◌≤◌, suc, ◌+◌, ◌-◌, ◌^◌, ◌≡◌, refl, sym, ap, ◌∙◌, some, List, [], ◌∷◌, ◌++◌,
  ltb, arith, length, take, drop, take-append, get_elem?, inl, inr, Bool-cases,
}
use fpga_algotrading.Feed.Bytes.{
  to_bytes, bytes_of, from_bytes, length-bytes_of, from_bytes-bytes_of,
}
use fpga_algotrading.GoldenBook.Apply.{slice, unpack, is_byte}

-- The bytes of a number that was packed.
pub record Packed (k v : ℕ) (bs : List ℕ) : Type 0 where
  pub size : length bs ≡ k
  pub value : from_bytes bs ≡ v

pub to_bytes-Packed : (k v : ℕ) (bs : List ℕ) → to_bytes k v ≡ some bs → Packed k v bs
unfolding to_bytes
to_bytes-Packed k v bs h = elim (Bool-cases (ltb v (256 ^ k))) [
  | inl fits ↦
      let e : bytes_of k v ≡ bs = (let h' = rw fits at h in cc) in
      rw (← e)
        (record { size = length-bytes_of k v; value = from_bytes-bytes_of k v (ground arith) })
  | inr over ↦ let h' = rw over at h in cc
]

drop_past : (xs rest : List ℕ) (a : ℕ) → drop (length xs + a) (xs ++ rest) ≡ drop a rest
drop_past [] rest a = let e : 0 + a ≡ a = omega arith in rw e refl
drop_past (x ∷ xs) rest a =
    let e : suc (length xs) + a ≡ suc (length xs + a) = omega arith in rw e (drop_past xs rest a)

-- A slice that lies behind another part.
pub slice_behind :
    (xs rest : List ℕ) (n a b : ℕ)
    → length xs ≡ n
    → slice (xs ++ rest) (n + a) (n + b) ≡ slice rest a b
slice_behind xs rest n a b h =
    let e : n + b - (n + a) ≡ b - a = omega arith in rw (e, ← h, drop_past xs rest a) refl

-- A number that lies behind another part.
pub behind :
    (xs rest : List ℕ) {n v : ℕ} (a b : ℕ)
    → length xs ≡ n
    → unpack rest a b ≡ some v
    → unpack (xs ++ rest) (n + a) (n + b) ≡ some v
behind xs rest {n} {v} a b h got =
    let e : n + b - (n + a) ≡ b - a = omega arith in rw (e, ← h, drop_past xs rest a) got

get_elem?_behind :
    (xs rest : List ℕ) (n a : ℕ) → length xs ≡ n → get_elem? (xs ++ rest) (n + a) ≡ get_elem? rest a
get_elem?_behind [] rest n a h = let e : n + a ≡ a = omega (arith, h) in rw e refl
get_elem?_behind (x ∷ xs) rest n a h =
    let e : n + a ≡ suc (length xs + a) = omega (arith, h) in
    rw e (get_elem?_behind xs rest (length xs) a refl)

-- A byte that lies behind another part.
pub is_byte_behind :
    (xs rest : List ℕ) {n : ℕ} (a c : ℕ)
    → length xs ≡ n
    → is_byte (xs ++ rest) (n + a) c ≡ is_byte rest a c
is_byte_behind xs rest {n} a c h = rw (get_elem?_behind xs rest n a h, is_byte) refl

-- A byte that stands at the front.
pub is_byte_front :
    (bs rest : List ℕ) (c : ℕ) → length bs ≡ 1 → is_byte (bs ++ rest) 0 c ≡ is_byte bs 0 c
is_byte_front [] rest c h = absurd (omega (arith, h))
is_byte_front (b ∷ bs) rest c h = refl

pub slice_front : (ys rest : List ℕ) (n : ℕ) → length ys ≡ n → slice (ys ++ rest) 0 n ≡ ys
slice_front ys rest n h =
    let e : n - 0 ≡ length ys = omega (arith, h) in rw e (take-append (length ys) ys rest refl)

-- A slice that is one byte, and all there is.
pub slice_all : (bs : List ℕ) → length bs ≡ 1 → slice bs 0 1 ≡ bs
slice_all [] h = absurd (omega (arith, h))
slice_all (b ∷ []) h = refl
slice_all (b ∷ c ∷ bs) h = absurd (omega (arith, h))

-- A number that stands at the front.
pub front :
    {k v : ℕ} {ys : List ℕ} (rest : List ℕ) → Packed k v ys → unpack (ys ++ rest) 0 k ≡ some v
front {k} {v} {ys} rest p =
    let e : k - 0 ≡ length ys = omega (arith, p.size) in
    rw (e, take-append (length ys) ys rest refl, p.value) (ground arith)

-- A number that is all there is.
pub alone : {k v : ℕ} {ys : List ℕ} → Packed k v ys → unpack ys 0 k ≡ some v
alone {k} {v} {ys} p = ap (λ l. unpack l 0 k) (sym (append-nil ys)) ∙ front [] p

take_within : (n : ℕ) (xs ys : List ℕ) → n ≤ length xs → take n (xs ++ ys) ≡ take n xs
take_within zero xs ys h = refl
take_within (suc n) [] ys h = absurd (omega (arith, h))
take_within (suc n) (x ∷ xs) ys h = ap (λ l. x ∷ l) (take_within n xs ys (omega (arith, h)))

high_half : (v : ℕ) → take 4 (bytes_of 8 v) ≡ bytes_of 4 (v / 256 / 256 / 256 / 256)
unfolding bytes_of
high_half v =
    let step : (k u : ℕ) → 4 ≤ k → take 4 (bytes_of (suc k) u) ≡ take 4 (bytes_of k (u / 256)) =
      (λ k u h.
        take_within 4 (bytes_of k (u / 256)) (u % 256 ∷ [])
          (omega (arith, h, length-bytes_of k (u / 256)))) in
    step 7 v (omega arith)
    ∙ step 6 (v / 256) (omega arith)
    ∙ step 5 (v / 256 / 256) (omega arith)
    ∙ step 4 (v / 256 / 256 / 256) (omega arith)
    ∙ refl

-- The first four of the eight bytes of a number.
pub to_bytes-high :
    (v : ℕ) (bs : List ℕ) → to_bytes 8 v ≡ some bs → unpack bs 0 4 ≡ some (v / 4294967296)
unfolding to_bytes
to_bytes-high v bs h = elim (Bool-cases (ltb v (256 ^ 8))) [
  | inl fits ↦
      let e : bytes_of 8 v ≡ bs = (let h' = rw fits at h in cc) in
      let value : from_bytes (bytes_of 4 (v / 256 / 256 / 256 / 256)) ≡ v / 4294967296 =
        from_bytes-bytes_of 4 (v / 256 / 256 / 256 / 256) (ground arith) ∙ omega arith in
      rw (← e, high_half v, length-bytes_of 4 (v / 256 / 256 / 256 / 256), value) refl
  | inr over ↦ let h' = rw over at h in cc
]

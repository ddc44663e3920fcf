-- ===== src/Contract/Unpack.antt =====
-- host/pymodel/trading_pkg_mirror.py, `pack_bits` and `unpack_bits` on the same members.
use native.Mathlib.Nat.{
  mod-lt, mod-eq_of_lt, div-one, one-le-pow, div-div-eq-div-mul, mul-add-div_right,
  mul-add-mod_self_right, div-eq_of_lt,
}
use native.Mathlib.Omega.{pow_step}
use fpga_algotrading.Prelude.{
  ℕ, zero, suc, ◌+◌, ◌*◌, ◌/◌, ◌%◌, ◌^◌, ◌<◌, ◌≡◌, ◌∙◌, ap, sym, refl, some, List, [], ◌∷◌, map,
  true, ◌==◌, arith,
}
use fpga_algotrading.Contract.Pack.{mask, pack_from, pack_bits, total_width, unpack_bits}

abbrev pub widths_of : List (ℕ × ℕ) → List ℕ
widths_of ms = map (λ e. e.0) ms

abbrev pub values_of : List (ℕ × ℕ) → List ℕ
values_of ms = map (λ e. e.1) ms

pow_positive : (w : ℕ) → 0 < 2 ^ w
pow_positive w = one-le-pow w 2 (omega arith)

pow_add : (a b : ℕ) → 2 ^ (a + b) ≡ 2 ^ b * 2 ^ a
pow_add zero b = ap (λ t. 2 ^ t) (zero_plus b) ∙ times_one (2 ^ b)
  where
    zero_plus : (n : ℕ) → 0 + n ≡ n
    zero_plus n = omega arith

    times_one : (n : ℕ) → n ≡ n * 1
    times_one n = omega arith
pow_add (suc a) b =
    ap (λ t. 2 ^ t) (moved a b)
    ∙ pow_step 2 (a + b)
    ∙ ap (λ t. 2 * t) (pow_add a b)
    ∙ pulled (2 ^ b) (2 ^ a)
    ∙ ap (λ t. 2 ^ b * t) (sym (pow_step 2 a))
  where
    moved : (m n : ℕ) → suc m + n ≡ suc (m + n)
    moved m n = omega arith

    pulled : (m n : ℕ) → 2 * (m * n) ≡ m * (2 * n)
    pulled m n = grind arith

-- What the loop builds keeps what came before it above the widths of its members.
record Holds (out : ℕ) (ms : List (ℕ × ℕ)) (p : ℕ) : Type 0 where
  above : p / 2 ^ total_width (widths_of ms) ≡ out
  members : unpack_bits (widths_of ms) p ≡ values_of ms

record Opened (out : ℕ) (e : ℕ × ℕ) (ms : List (ℕ × ℕ)) (p : ℕ) : Type 0 where
  fits : e.1 < 2 ^ e.0
  rest : pack_from (out * 2 ^ e.0 + e.1) ms ≡ some p

value_fits : (v w : ℕ) → (v == mask v w) ≡ true → v < 2 ^ w
value_fits v w h = let small = mod-lt v (pow_positive w) in ground arith

opens :
    (out : ℕ) (e : ℕ × ℕ) (ms : List (ℕ × ℕ)) (p : ℕ)
    → pack_from out (e ∷ ms) ≡ some p
    → Opened out e ms p
unfolding pack_from
opens out e ms p packs = record { fits = value_fits e.1 e.0 (ground arith); rest = ground arith }

low_part : (out w v : ℕ) → v < 2 ^ w → (out * 2 ^ w + v) % 2 ^ w ≡ v
low_part out w v h = mul-add-mod_self_right out (2 ^ w) v ∙ mod-eq_of_lt h

high_part : (out w v : ℕ) → v < 2 ^ w → (out * 2 ^ w + v) / 2 ^ w ≡ out
high_part out w v h =
    mul-add-div_right (pow_positive w) out v ∙ ap (λ t. out + t) (div-eq_of_lt h) ∙ omega arith

pack_from-Holds : (out : ℕ) (ms : List (ℕ × ℕ)) (p : ℕ) → pack_from out ms ≡ some p → Holds out ms p
unfolding pack_from unpack_bits
pack_from-Holds out [] p packs = record { above = div-one p ∙ ground arith; members = refl }
pack_from-Holds out (e ∷ ms) p packs =
    let o = opens out e ms p packs in
    let ih = pack_from-Holds (out * 2 ^ e.0 + e.1) ms p o.rest in
    let total = total_width (widths_of ms) in
    let value = ap (λ t. mask t e.0) ih.above ∙ low_part out e.0 e.1 o.fits in
    record {
      above =
          ap (λ t. p / t) (pow_add e.0 total)
          ∙ sym (div-div-eq-div-mul p (2 ^ total) (2 ^ e.0))
          ∙ ap (λ t. t / 2 ^ e.0) ih.above
          ∙ high_part out e.0 e.1 o.fits;
      members = ap (λ t. t ∷ unpack_bits (widths_of ms) p) value ∙ ap (λ t. e.1 ∷ t) ih.members;
    }

-- Members that pack come back: `unpack_bits` with their widths gives the value of every member, in
-- order, whatever the widths are and however many members there are.
pub unpack-pack_bits :
    (ms : List (ℕ × ℕ)) (p : ℕ)
    → pack_bits ms ≡ some p
    → unpack_bits (widths_of ms) p ≡ values_of ms
unfolding pack_bits
unpack-pack_bits ms p packs = (pack_from-Holds 0 ms p packs).members

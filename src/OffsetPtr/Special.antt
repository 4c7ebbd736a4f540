-- ===== src/OffsetPtr/Special.antt =====
-- The kinds of a pointer in its word (include/mpgc/offset_ptr.h).
use mpgc.Prelude.{
  ℕ, zero, suc, ◌+◌, ◌-◌, ◌*◌, ◌/◌, ◌%◌, ◌^◌, ◌≤◌, ◌<◌, ◌≡◌, ◌≢◌, refl, sym, ap, ◌∙◌, arith, Bool,
  true, false, ◌==◌, if◌then◌else◌, ltb, ==-refl, ==_iff, dec_lt, ℕ_discrete, leb, ◌&&◌, ◌⊎◌, inl,
  inr,
}
use mpgc.Prelude.Bits.{test_bit, bit_and-le, complement}
use mpgc.Descriptor.Field.{replace, encode}
use mpgc.Prelude.Bits.Digits.{eq_of_bits}
use mpgc.Descriptor.FieldBits.{test_bit-replace, replace-lt}
use mpgc.OffsetPtr.Defs.{
  ptr_type_fld, remove_special_bits, is_weak, is_strong, is_contingent, is_sweep_assigned,
  set_sweep_assigned, set_weak_assigned, remove_sweep_assigned, atomic_remove_sweep_assigned,
}
use mpgc.OffsetPtr.Parts.{decode-mod, replace-eq, test_bit-remove_sweep_assigned}
use mpgc.OffsetPtr.Values.{is_weak_lem, is_strong_lem, remove_special_bits_lem}

set_sweep_assigned_lem : (x : ℕ) → x < 2 ^ 64 → set_sweep_assigned x ≡ x / 8 * 8 + 5
unfolding set_sweep_assigned
set_sweep_assigned_lem x h = replace-eq x 5 h (omega arith)

set_weak_assigned_lem : (x : ℕ) → x < 2 ^ 64 → set_weak_assigned x ≡ x / 8 * 8 + 1
unfolding set_weak_assigned
set_weak_assigned_lem x h = replace-eq x 1 h (omega arith)

is_sweep_assigned_lem : (x : ℕ) → x < 2 ^ 64 → is_sweep_assigned x ≡ (x % 8 == 5)
unfolding is_sweep_assigned
is_sweep_assigned_lem x h = ap (λ u. u == 5) (decode-mod x h)

-- The numbers 5 and 1 differ in one bit.
five_one : (i : ℕ) → i < 3 → i ≢ 2 → test_bit 5 i ≡ test_bit 1 i
unfolding test_bit
five_one zero lt ne = refl
five_one (suc zero) lt ne = refl
five_one (suc (suc zero)) lt ne = absurd (ne refl)
five_one (suc (suc (suc i))) lt ne = absurd (omega arith)

one_third : test_bit 1 2 ≡ 0
unfolding test_bit
one_third = refl

remove_sweep_assigned-lt : (x : ℕ) → x < 2 ^ 64 → remove_sweep_assigned x < 2 ^ 64
unfolding remove_sweep_assigned
remove_sweep_assigned-lt x h =
    omega (arith, bit_and-le 64 x (complement 64 (encode ptr_type_fld 4)) h)

-- To take back the bit for sweeping leaves a weak pointer.
remove-set :
    (x : ℕ) → x < 2 ^ 64 → remove_sweep_assigned (set_sweep_assigned x) ≡ set_weak_assigned x
unfolding set_sweep_assigned set_weak_assigned
remove-set x h =
    eq_of_bits 64 (remove_sweep_assigned (replace ptr_type_fld x 5)) (replace ptr_type_fld x 1)
      (remove_sweep_assigned-lt (replace ptr_type_fld x 5)
        (replace-lt ptr_type_fld (omega arith) x 5 h))
      (replace-lt ptr_type_fld (omega arith) x 1 h)
      (λ i lt.
        let cleared = test_bit-remove_sweep_assigned (replace ptr_type_fld x 5) i lt in
        let five = test_bit-replace ptr_type_fld (omega arith) x 5 i lt in
        let one = test_bit-replace ptr_type_fld (omega arith) x 1 i lt in
        elim (ℕ_discrete i 2) [
          | yes e ↦ rw e (cleared.1 ∙ sym (third x))
          | no ne ↦ elim (dec_lt i 3) [
            | yes low ↦ cleared.0 ne ∙ five ∙ inside i low (five_one i low ne) ∙ sym one
            | no high ↦ cleared.0 ne ∙ five ∙ outside i (omega arith) ∙ sym one
          ]
        ])
  where
    third : (x : ℕ) → test_bit (replace ptr_type_fld x 1) 2 ≡ 0
    third x = test_bit-replace ptr_type_fld (omega arith) x 1 2 (omega arith) ∙ one_third

    inside :
        (i : ℕ)
        → i < 3
        → test_bit 5 i ≡ test_bit 1 i
        → (if leb 0 i && ltb i 3 then test_bit 5 (i - 0) else test_bit x i)
          ≡ (if leb 0 i && ltb i 3 then test_bit 1 (i - 0) else test_bit x i)
    inside i lt e = ground arith

    outside :
        (i : ℕ)
        → 3 ≤ i
        → (if leb 0 i && ltb i 3 then test_bit 5 (i - 0) else test_bit x i)
          ≡ (if leb 0 i && ltb i 3 then test_bit 1 (i - 0) else test_bit x i)
    outside i le = ground arith

-- What the kinds say of a word and what it is made of.
pub record HasKind (x y : ℕ) (weak sweeping : Bool) : Type 0 where
  pub is_weak_eq : is_weak y ≡ weak
  pub is_sweep_assigned_eq : is_sweep_assigned y ≡ sweeping
  pub is_strong_eq : is_strong y ≡ false
  pub is_contingent_eq : is_contingent y ≡ false
  pub remove_eq : remove_special_bits y ≡ x

HasKind_lem :
    (x y v : ℕ)
    → x < 2 ^ 64
    → x % 8 ≡ 0
    → (v ≡ 1) ⊎ (v ≡ 5)
    → y ≡ x / 8 * 8 + v
    → HasKind x y true (v == 5)
unfolding is_contingent
HasKind_lem x y v h e (inl one) same =
    let word : y < 2 ^ 64 = omega arith in
    rw one record {
      is_weak_eq = is_weak_lem y word ∙ ground arith;
      is_sweep_assigned_eq = is_sweep_assigned_lem y word ∙ ground arith;
      is_strong_eq = is_strong_lem y word ∙ ground arith;
      is_contingent_eq = ap (λ u. u == 2) (decode-mod y word) ∙ ground arith;
      remove_eq = omega (arith, remove_special_bits_lem y word);
    }
HasKind_lem x y v h e (inr five) same =
    let word : y < 2 ^ 64 = omega arith in
    rw five record {
      is_weak_eq = is_weak_lem y word ∙ ground arith;
      is_sweep_assigned_eq = is_sweep_assigned_lem y word ∙ ground arith;
      is_strong_eq = is_strong_lem y word ∙ ground arith;
      is_contingent_eq = ap (λ u. u == 2) (decode-mod y word) ∙ ground arith;
      remove_eq = omega (arith, remove_special_bits_lem y word);
    }

-- The 64-bit word of a strong pointer that is set as assigned in a sweep is weak and so marked; when
-- the bit for sweeping is taken back, by itself or by the exchange, it is the weak pointer that
-- `set_weak_assigned` makes; to remove the special bits of either gives the strong pointer back.
pub set_sweep_assigned-HasKind :
    (x : ℕ)
    → x < 2 ^ 64
    → is_strong x ≡ true
    → HasKind x (set_sweep_assigned x) true true
      × HasKind x (set_weak_assigned x) true false
      × (remove_sweep_assigned (set_sweep_assigned x) ≡ set_weak_assigned x)
      × (atomic_remove_sweep_assigned (set_sweep_assigned x) (set_sweep_assigned x)
          ≡ (true, set_weak_assigned x))
unfolding atomic_remove_sweep_assigned
set_sweep_assigned-HasKind x h strong =
    let e : x % 8 ≡ 0 = (==_iff (x % 8) 0).0 (sym (is_strong_lem x h) ∙ strong) in
    (
      HasKind_lem x (set_sweep_assigned x) 5 h e (inr refl) (set_sweep_assigned_lem x h),
      HasKind_lem x (set_weak_assigned x) 1 h e (inl refl) (set_weak_assigned_lem x h),
      remove-set x h,
      rw (==-refl (set_sweep_assigned x), remove-set x h) refl,
    )

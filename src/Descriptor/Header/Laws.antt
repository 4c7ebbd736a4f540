-- ===== src/Descriptor/Header/Laws.antt =====
-- The check bits and the flags of a descriptor (include/mpgc/gc_desc.h).
use mpgc.Prelude.{
  ℕ, zero, suc, ◌/◌, ◌%◌, ◌^◌, ◌≤◌, ◌<◌, ◌≡◌, ◌≢◌, refl, sym, ap, ◌∙◌, bit_and, bit_or, Bool, true,
  false, not, ◌||◌, ◌==◌, if◌then◌else◌, Option, some, arith, dec_lt,
}
use mpgc.Prelude.Bits.{test_bit, complement, bit_or-lt, bit_and-le, test_bit_of_lt}
use mpgc.Descriptor.Field.{mask, decode, encode, replace, encode_bool}
use mpgc.Prelude.Bits.Digits.{eq_of_bits, test_bit-mod}
use mpgc.Descriptor.FieldBits.{
  test_bit-decode, decode_bool_lem, test_bit-encode, encode-lt, encode_bool-lt, test_bit-replace,
  replace-lt, test_bit-under_mask, test_bit-set_flag, test_bit-clear_flag,
}
use mpgc.Descriptor.Defs.{
  cat_fld, is_compact_fld, check_bits_fld, sweep_allocated_fld, in_control_map_fld, Cat, illegal,
  external, list, bitmap, to_cat, category, ExternalDescriptor,
}
use mpgc.Descriptor.Header.{
  check_bits_for, is_compact, install, is_valid, was_allocated_during_sweep, is_in_control_map,
  atomic_set_in_control_map, atomic_clear_in_control_map,
}
use mpgc.Descriptor.Header.Frame.{IsSameAbove, SameObject, object_same, category_same}

low_check : (x : ℕ) → encode check_bits_fld x ≡ x % 2 ^ 22
low_check x =
    eq_of_bits 64 (encode check_bits_fld x) (x % 2 ^ 22) (encode-lt check_bits_fld (omega arith) x)
      (omega arith)
      (λ j h. elim (dec_lt j 22) [
        | yes low ↦
            ground
              (arith, test_bit-encode check_bits_fld (omega arith) x j h, test_bit-mod 22 x j low)
        | no high ↦ ground (
          arith,
          test_bit-encode check_bits_fld (omega arith) x j h,
          test_bit_of_lt 22 (x % 2 ^ 22) j (omega arith) (omega arith),
        )
      ])

high_cat : (d : ℕ) → 2 ≤ d → (to_cat d ≢ illegal) × (to_cat d ≢ external)
high_cat zero h = absurd (omega arith)
high_cat (suc zero) h = absurd (omega arith)
high_cat (suc (suc zero)) h = (λ e. cc, λ e. cc)
high_cat (suc (suc (suc d))) h = (λ e. cc, λ e. cc)

compact_cases :
    (rep : ℕ)
    → rep < 2 ^ 64
    → is_compact rep ≡ true
    → (category rep ≢ illegal) × (category rep ≢ external)
unfolding category
compact_cases rep small compact = high_cat (decode cat_fld rep) (
    unfold test_bit in
    ground (
      arith,
      compact,
      decode_bool_lem is_compact_fld (omega arith) rep refl small,
      test_bit-decode cat_fld (omega arith) rep 1 (omega arith),
    ))

aligned_lem : (me : ℕ) → me ≢ 0 → me % 8 ≡ 0 → (me == 0 || not (me % 8 == 0)) ≡ false
aligned_lem me here aligned = ground arith

module _ (rep : ℕ) (small : rep < 2 ^ 64) (p : ℕ) where
  abbrev installed : ℕ
  installed = replace check_bits_fld rep (check_bits_for p)

  installed-IsSameAbove : IsSameAbove rep installed
  installed-IsSameAbove = record {
    small = small;
    small' = replace-lt check_bits_fld (omega arith) rep (check_bits_for p) small;
    same = λ j high h.
        ground (arith, test_bit-replace check_bits_fld (omega arith) rep (check_bits_for p) j h);
  }

  check_lem : bit_and installed (mask check_bits_fld) ≡ check_bits_for p % 2 ^ 22
  check_lem =
      eq_of_bits 64 (bit_and installed (mask check_bits_fld))
        (encode check_bits_fld (check_bits_for p))
        (omega (
          arith,
          bit_and-le 64 installed (mask check_bits_fld) installed-IsSameAbove.small',
          installed-IsSameAbove.small',
        ))
        (encode-lt check_bits_fld (omega arith) (check_bits_for p))
        (λ j h. ground (
          arith,
          test_bit-under_mask check_bits_fld (omega arith) installed j h,
          test_bit-replace check_bits_fld (omega arith) rep (check_bits_for p) j h,
          test_bit-encode check_bits_fld (omega arith) (check_bits_for p) j h,
        ))
      ∙ low_check (check_bits_for p)

  checked_by :
      (c : Cat)
      → category rep ≡ c
      → c ≢ illegal
      → c ≢ external
      → is_compact rep ≡ true
      → (install p rep ≡ some installed)
        × ((me q : ℕ) (ok : Bool)
            → me ≢ 0
            → me % 8 ≡ 0
            → is_valid me q ok installed ≡ (check_bits_for p % 2 ^ 22 == check_bits_for q % 2 ^ 22))
  unfolding install is_valid
  checked_by illegal c ni ne compact = absurd (ni refl)
  checked_by external c ni ne compact = absurd (ne refl)
  checked_by list c ni ne compact = (
    rw (c, install, compact) refl,
    λ me q ok here aligned.
        rw
          (
            aligned_lem me here aligned,
            category_same rep installed installed-IsSameAbove,
            c,
            is_valid,
            check_lem,
            low_check (check_bits_for q),
          )
          refl,
  )
  checked_by bitmap c ni ne compact = (
    rw (c, install, compact) refl,
    λ me q ok here aligned.
        rw
          (
            aligned_lem me here aligned,
            category_same rep installed installed-IsSameAbove,
            c,
            is_valid,
            check_lem,
            low_check (check_bits_for q),
          )
          refl,
  )

  -- A list or bitmap descriptor that is installed at offset `p` says the same of its object there: the
  -- number of fields, the references, whether it is an array, and the size. `is_valid` accepts it,
  -- wherever it stands with its address aligned, exactly if the offset agrees with `p` in the bits 3
  -- to 24.
  pub install-is_valid :
      is_compact rep ≡ true
      → (rep' : ℕ) × (install p rep ≡ some rep')
        × ((at : ℕ → Option ExternalDescriptor) → SameObject rep rep' at)
        × ((me q : ℕ) (ok : Bool)
            → me ≢ 0
            → me % 8 ≡ 0
            → is_valid me q ok rep' ≡ (p / 8 % 2 ^ 22 == q / 8 % 2 ^ 22))
  install-is_valid compact =
      let (ni, ne) = compact_cases rep small compact in
      let (made, checks) = checked_by (category rep) refl ni ne compact in
      (installed, made, (λ at. object_same rep installed installed-IsSameAbove at ne), checks)

-- What `set` and `clear` of the control map's flag do to a descriptor that is no pointer.
pub record IsFlagged (rep : ℕ) (on : Bool) (r : Bool × ℕ) : Type 0 where
  pub first : r.0 ≡ (if on then not (is_in_control_map rep) else is_in_control_map rep)
  pub flag : is_in_control_map r.1 ≡ on
  pub sweep_flag : was_allocated_during_sweep r.1 ≡ was_allocated_during_sweep rep
  pub check_bits : bit_and r.1 (mask check_bits_fld) ≡ bit_and rep (mask check_bits_fld)
  pub same_object : (at : ℕ → Option ExternalDescriptor) → SameObject rep r.1 at

module _ (rep rep' : ℕ) (small : rep < 2 ^ 64) (small' : rep' < 2 ^ 64) (on : ℕ)
    (only : (j : ℕ) → j < 64 → test_bit rep' j ≡ (if j == 22 then on else test_bit rep j)) where
  same_above : IsSameAbove rep rep'
  same_above = record {
    small = small;
    small' = small';
    same = λ j high h. ground (arith, only j h);
  }

  new_flag : is_in_control_map rep' ≡ (on == 1)
  unfolding is_in_control_map
  new_flag =
      decode_bool_lem in_control_map_fld (omega arith) rep' refl small'
      ∙ ap (λ b. b == 1) (only 22 (omega arith))

  same_sweep_flag : was_allocated_during_sweep rep' ≡ was_allocated_during_sweep rep
  unfolding was_allocated_during_sweep
  same_sweep_flag =
      decode_bool_lem sweep_allocated_fld (omega arith) rep' refl small'
      ∙ ap (λ b. b == 1) (only 23 (omega arith))
      ∙ sym (decode_bool_lem sweep_allocated_fld (omega arith) rep refl small)

  same_check_bits : bit_and rep' (mask check_bits_fld) ≡ bit_and rep (mask check_bits_fld)
  same_check_bits =
      eq_of_bits 64 (bit_and rep' (mask check_bits_fld)) (bit_and rep (mask check_bits_fld))
        (omega (arith, bit_and-le 64 rep' (mask check_bits_fld) small'))
        (omega (arith, bit_and-le 64 rep (mask check_bits_fld) small))
        (λ j h. ground (
          arith,
          test_bit-under_mask check_bits_fld (omega arith) rep' j h,
          test_bit-under_mask check_bits_fld (omega arith) rep j h,
          only j h,
        ))

module _ (rep : ℕ) (small : rep < 2 ^ 64) (compact : is_compact rep ≡ true) where
  set_rep : ℕ
  set_rep = bit_or rep (encode_bool in_control_map_fld true)

  set_only : (j : ℕ) → j < 64 → test_bit set_rep j ≡ (if j == 22 then 1 else test_bit rep j)
  unfolding set_rep
  set_only j h = test_bit-set_flag in_control_map_fld (omega arith) rep j refl h

  set_small : set_rep < 2 ^ 64
  unfolding set_rep
  set_small = bit_or-lt 64 rep _ small (encode_bool-lt in_control_map_fld (omega arith) true)

  set-IsFlagged : IsFlagged rep true (atomic_set_in_control_map rep)
  unfolding atomic_set_in_control_map is_in_control_map set_rep
  set-IsFlagged = record {
    first = refl;
    flag = new_flag rep set_rep small set_small 1 set_only;
    sweep_flag = same_sweep_flag rep set_rep small set_small 1 set_only;
    check_bits = same_check_bits rep set_rep small set_small 1 set_only;
    same_object = λ at.
        object_same rep set_rep (same_above rep set_rep small set_small 1 set_only) at
          (compact_cases rep small compact).1;
  }

  clear_rep : ℕ
  clear_rep = bit_and rep (complement 64 (encode_bool in_control_map_fld true))

  clear_only : (j : ℕ) → j < 64 → test_bit clear_rep j ≡ (if j == 22 then 0 else test_bit rep j)
  unfolding clear_rep
  clear_only j h = test_bit-clear_flag in_control_map_fld (omega arith) rep j refl h

  clear_small : clear_rep < 2 ^ 64
  unfolding clear_rep
  clear_small =
      omega (arith, bit_and-le 64 rep (complement 64 (encode_bool in_control_map_fld true)) small)

  clear-IsFlagged : IsFlagged rep false (atomic_clear_in_control_map rep)
  unfolding atomic_clear_in_control_map is_in_control_map clear_rep
  clear-IsFlagged = record {
    first = refl;
    flag = new_flag rep clear_rep small clear_small 0 clear_only;
    sweep_flag = same_sweep_flag rep clear_rep small clear_small 0 clear_only;
    check_bits = same_check_bits rep clear_rep small clear_small 0 clear_only;
    same_object = λ at.
        object_same rep clear_rep (same_above rep clear_rep small clear_small 0 clear_only) at
          (compact_cases rep small compact).1;
  }

  -- On a list or bitmap descriptor, setting the flag of the control map answers whether it was clear,
  -- and clearing it whether it was set; the flag is then as asked for, and the other flag, the check
  -- bits and what the descriptor says of its object are as before: the number of fields, the
  -- references, whether it is an array, and the size.
  pub control_map_flag_lem :
      IsFlagged rep true (atomic_set_in_control_map rep)
      × IsFlagged rep false (atomic_clear_in_control_map rep)
  control_map_flag_lem = (set-IsFlagged, clear-IsFlagged)

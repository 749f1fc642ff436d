-- ===== src/Cpu/Exec/Shifts/Rotate.antt =====
-- ROL and ROR undo each other.
use golinux.Base.{
  ℕ, zero, suc, ◌+◌, ◌-◌, ◌*◌, ◌/◌, ◌%◌, ◌^◌, ◌≤◌, ◌<◌, ◌≡◌, ap, ◌∙◌, sym, bit_or, arith,
}
use golinux.Base.Bits.{bit-or, bit_ext}
use golinux.Base.Disjoint.{or_parts}
use native.Mathlib.Nat.{
  mod-lt, mod-eq_of_lt, mod-mod_of_dvd, div-add-mod, one-le-pow, pow-suc, mul_comm, mul_assoc,
  add-mul, add-zero, dvd-mul_left, div-eq_of_lt, mul-add-div_right, add-mul-mod_self_right,
  mul-add-mod_self_right, div-lt_iff_lt-mul,
}
use golinux.Cpu.Flags.{rol, ror}
use golinux.Cpu.Flags.Laws.{Width, byte, word, dword, qword, bytes_of, bits_of, and-mask_width}
use golinux.Cpu.Exec.Shifts.{shift_value}

or_comm : (a b : ℕ) → bit_or a b ≡ bit_or b a
or_comm a b = bit_ext _ _ λ k. rw (bit-or k a b, bit-or k b a) (ground arith)

-- A value of `n` bits turned left by `c`.
turned : ℕ → ℕ → ℕ → ℕ
turned n a c = a % 2 ^ (n - c) * 2 ^ c + a / 2 ^ (n - c)

pow_add : (a b : ℕ) → 2 ^ (a + b) ≡ 2 ^ a * 2 ^ b
pow_add a zero = let e : a + 0 ≡ a = omega arith in rw e (omega arith)
pow_add a (suc b) =
    let e : a + suc b ≡ suc (a + b) = omega arith in
    rw (e, pow-suc 2 (a + b), pow-suc 2 b, pow_add a b) (mul_assoc (2 ^ a) (2 ^ b) 2)

split_pow : (n c : ℕ) → c ≤ n → 2 ^ n ≡ 2 ^ (n - c) * 2 ^ c
split_pow n c p = let e : n ≡ n - c + c = omega arith in ap (λ (k : ℕ). 2 ^ k) e ∙ pow_add (n - c) c

below : (r b c y : ℕ) → r < b → y < c → r * c + y < b * c
below r b c y u v = grind arith

mod_product : (a b c y : ℕ) → 0 < b → y < c → (a * c + y) % (b * c) ≡ a % b * c + y
mod_product a b c y p q =
    let product : a * c ≡ b * (a / b) * c + a % b * c =
      ap (λ (t : ℕ). t * c) (sym (div-add-mod a b)) ∙ add-mul (b * (a / b)) (a % b) c in
    let turn : b * (a / b) * c ≡ a / b * (b * c) =
      ap (λ (t : ℕ). t * c) (mul_comm b (a / b)) ∙ mul_assoc (a / b) b c in
    let parts : a * c + y ≡ a % b * c + y + a / b * (b * c) = omega (arith, product, turn) in
    ap (λ (t : ℕ). t % (b * c)) parts
    ∙ add-mul-mod_self_right (a % b * c + y) (a / b) (b * c)
    ∙ mod-eq_of_lt (below (a % b) b c y (mod-lt a p) q)

high_part : (a c y : ℕ) → y < c → (a * c + y) / c ≡ a
high_part a c y p = mul-add-div_right (omega arith) a y ∙ omega (arith, div-eq_of_lt p)

low_part : (a c y : ℕ) → y < c → (a * c + y) % c ≡ y
low_part a c y p = mul-add-mod_self_right a c y ∙ mod-eq_of_lt p

top_bits : (n a c : ℕ) → c ≤ n → a < 2 ^ n → a / 2 ^ (n - c) < 2 ^ c
top_bits n a c p q =
    (div-lt_iff_lt-mul (one-le-pow (n - c) 2 (omega arith))).1
      (omega (arith, split_pow n c p, mul_comm (2 ^ c) (2 ^ (n - c))))

-- The value that the code masks.
masked_or :
    (n a c : ℕ)
    → n ≤ 64
    → c ≤ n
    → a < 2 ^ n
    → bit_or (a * 2 ^ c % 2 ^ 64) (a / 2 ^ (n - c)) % 2 ^ n ≡ turned n a c
unfolding turned
masked_or n a c p q r =
    let small : a / 2 ^ (n - c) < 2 ^ c = top_bits n a c q r in
    let shifted : a * 2 ^ c % 2 ^ 64 ≡ a % 2 ^ (64 - c) * 2 ^ c =
      let plus : a * 2 ^ c ≡ a * 2 ^ c + 0 = omega arith in
      ap (λ (t : ℕ). t % 2 ^ 64) plus
      ∙ ap (λ (t : ℕ). (a * 2 ^ c + 0) % t) (split_pow 64 c (omega arith))
      ∙ mod_product a (2 ^ (64 - c)) (2 ^ c) 0 (one-le-pow (64 - c) 2 (omega arith))
          (one-le-pow c 2 (omega arith))
      ∙ add-zero (a % 2 ^ (64 - c) * 2 ^ c) in
    let wider : 2 ^ (64 - c) ≡ 2 ^ (64 - n) * 2 ^ (n - c) =
      let e : 64 - c ≡ 64 - n + (n - c) = omega arith in
      ap (λ (k : ℕ). 2 ^ k) e ∙ pow_add (64 - n) (n - c) in
    let low : a % 2 ^ (64 - c) % 2 ^ (n - c) ≡ a % 2 ^ (n - c) =
      ap (λ (t : ℕ). a % t % 2 ^ (n - c)) wider
      ∙ mod-mod_of_dvd (2 ^ (n - c)) a (dvd-mul_left (2 ^ (n - c)) (2 ^ (64 - n))) in
    let parts = or_parts c (a % 2 ^ (64 - c)) (a / 2 ^ (n - c)) small in
    ap (λ (t : ℕ). bit_or t (a / 2 ^ (n - c)) % 2 ^ n) shifted
    ∙ ap (λ (t : ℕ). t % 2 ^ n) parts
    ∙ ap (λ (t : ℕ). (a % 2 ^ (64 - c) * 2 ^ c + a / 2 ^ (n - c)) % t) (split_pow n c q)
    ∙ mod_product (a % 2 ^ (64 - c)) (2 ^ (n - c)) (2 ^ c) (a / 2 ^ (n - c))
        (one-le-pow (n - c) 2 (omega arith)) small
    ∙ ap (λ (t : ℕ). t * 2 ^ c + a / 2 ^ (n - c)) low

turned-lt : (n a c : ℕ) → c ≤ n → a < 2 ^ n → turned n a c < 2 ^ n
unfolding turned
turned-lt n a c p q =
    let small = top_bits n a c p q in
    let room =
      below (a % 2 ^ (n - c)) (2 ^ (n - c)) (2 ^ c) (a / 2 ^ (n - c))
        (mod-lt a (one-le-pow (n - c) 2 (omega arith))) small in
    omega (arith, room, split_pow n c p)

-- Turning by `c` and then by `n - c`.
turn_back : (n a c : ℕ) → c ≤ n → a < 2 ^ n → turned n (turned n a c) (n - c) ≡ a
unfolding turned
turn_back n a c p q =
    let small = top_bits n a c p q in
    let rest : n - (n - c) ≡ c = omega arith in
    rw
      (
        rest,
        low_part (a % 2 ^ (n - c)) (2 ^ c) (a / 2 ^ (n - c)) small,
        high_part (a % 2 ^ (n - c)) (2 ^ c) (a / 2 ^ (n - c)) small,
      )
      (omega (arith, div-add-mod a (2 ^ (n - c)), mul_comm (2 ^ (n - c)) (a / 2 ^ (n - c))))

fits : (w : Width) → bits_of w ≤ 64
fits byte = omega arith
fits word = omega arith
fits dword = omega arith
fits qword = omega arith

turns : (w : Width) → 0 < bits_of w
turns byte = omega arith
turns word = omega arith
turns dword = omega arith
turns qword = omega arith

rol_lem :
    (w : Width) (a count : ℕ)
    → a < 2 ^ bits_of w
    → (shift_value rol a (bytes_of w) count).result ≡ turned (bits_of w) a (count % bits_of w)
unfolding shift_value
rol_lem w a count p =
    let n = bits_of w in
    let c : ℕ = count % n in
    let small : c < n = mod-lt count (turns w) in
    and-mask_width w (bit_or (a * 2 ^ c % 2 ^ 64) (a / 2 ^ (n - c)))
    ∙ masked_or n a c (fits w) (omega arith) p

ror_lem :
    (w : Width) (a count : ℕ)
    → a < 2 ^ bits_of w
    → (shift_value ror a (bytes_of w) count).result
      ≡ turned (bits_of w) a (bits_of w - count % bits_of w)
unfolding shift_value
ror_lem w a count p =
    let n = bits_of w in
    let c : ℕ = count % n in
    let small : c < n = mod-lt count (turns w) in
    let back : n - (n - c) ≡ c = omega arith in
    let turned_back = masked_or n a (n - c) (fits w) (omega arith) p in
    and-mask_width w (bit_or (a / 2 ^ c) (a * 2 ^ (n - c) % 2 ^ 64))
    ∙ ap (λ (t : ℕ). t % 2 ^ n) (or_comm (a / 2 ^ c) (a * 2 ^ (n - c) % 2 ^ 64))
    ∙ ap (λ (k : ℕ). bit_or (a * 2 ^ (n - c) % 2 ^ 64) (a / 2 ^ k) % 2 ^ n) (sym back)
    ∙ turned_back

-- At any operand width and for any count, ROR of what ROL gives for a value of that width is
-- that value.
pub rol-ror :
    (w : Width) (a count : ℕ)
    → a < 2 ^ bits_of w
    → (shift_value ror (shift_value rol a (bytes_of w) count).result (bytes_of w) count).result ≡ a
rol-ror w a count p =
    let n = bits_of w in
    let c : ℕ = count % n in
    let small : c < n = mod-lt count (turns w) in
    ap (λ (t : ℕ). (shift_value ror t (bytes_of w) count).result) (rol_lem w a count p)
    ∙ ror_lem w (turned n a c) count (turned-lt n a c (omega arith) p)
    ∙ turn_back n a c (omega arith) p

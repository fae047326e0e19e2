-- ===== src/Shim/Keys.antt =====
-- instance.rs `stable_hash_hex`: the key of an image in the cache of erofs images and in that of the
-- daemon's snapshots.
use containerd_cloudhypervis.Common.{
  ℕ, zero, suc, ◌+◌, ◌-◌, ◌*◌, ◌/◌, ◌%◌, ◌^◌, ◌≤◌, ◌<◌, ◌≡◌, refl, ap, ◌∙◌, Bool, true, ◌&&◌, ◌||◌,
  [], ◌∷◌, ◌++◌, Text, codes, length, replicate, All, length-append, if◌then◌else◌, ltb, leb, arith,
  Bool-cases, inl, inr,
}
use Prim.Native.Nat.{bit_xor}

-- `u128`.
abbrev u128 : ℕ → ℕ
u128 n = n % 2 ^ 128

hash_from : ℕ → Text → ℕ
hash_from hash [] = hash
hash_from hash (byte ∷ bytes) =
    hash_from (u128 (bit_xor hash byte * 0x0000000001000000000000000000013b)) bytes

unfoldable pub stable_hash : Text → ℕ
unfolding hash_from
stable_hash input = hash_from 0x6c62272e07bb014262b821756295c58d input

hex_digit : ℕ → ℕ
hex_digit d = if ltb d 10 then b'0' + d else b'a' + (d - 10)

-- A number of `fuel` hexadecimal digits at most, without leading zeros.
hex_from : ℕ → ℕ → Text
unfolding hex_digit
hex_from zero n = []
hex_from (suc fuel) n =
    let front = hex_from fuel (n / 16) in
    if ltb n 16 then hex_digit n ∷ [] else front ++ hex_digit (n % 16) ∷ []

-- `{n:032x}` of a u128, which has 32 digits at most.
unfoldable pub show_hex : ℕ → Text
unfolding hex_from
show_hex n = let digits = hex_from 32 n in replicate (32 - length digits) b'0' ++ digits

unfoldable pub stable_hash_hex : Text → Text
unfolding stable_hash show_hex
stable_hash_hex input = show_hex (stable_hash input)

unfoldable pub is_hex : ℕ → Bool
is_hex c = leb b'0' c && leb c b'9' || leb b'a' c && leb c b'f'

-- The number that hexadecimal digits stand for.
unfoldable pub read_hex : ℕ → Text → ℕ
read_hex acc [] = acc
read_hex acc (c ∷ cs) = read_hex (acc * 16 + (if ltb c b'a' then c - b'0' else c - b'a' + 10)) cs

read_hex-append :
    (acc c : ℕ) (xs : Text)
    → read_hex acc (xs ++ c ∷ [])
      ≡ read_hex acc xs * 16 + (if ltb c b'a' then c - b'0' else c - b'a' + 10)
unfolding read_hex
read_hex-append acc c [] = refl
read_hex-append acc c (x ∷ xs) =
    read_hex-append (acc * 16 + (if ltb x b'a' then x - b'0' else x - b'a' + 10)) c xs

abbrev sixteen_to : ℕ → ℕ
sixteen_to zero = 1
sixteen_to (suc n) = 16 * sixteen_to n

read_hex-hex_from : (f n : ℕ) → n < sixteen_to f → read_hex 0 (hex_from f n) ≡ n
unfolding read_hex hex_from
read_hex-hex_from zero n h = omega arith
read_hex-hex_from (suc f) n h = ground (
  arith,
  read_hex-append 0 (hex_digit (n % 16)) (hex_from f (n / 16)),
  read_hex-hex_from f (n / 16),
)

length-hex_from : (f n : ℕ) → length (hex_from f n) ≤ f
unfolding hex_from
length-hex_from zero n = omega arith
length-hex_from (suc f) n = ground (
  arith,
  length-hex_from f (n / 16),
  length-append (hex_from f (n / 16)) (hex_digit (n % 16) ∷ []),
)

-- Digits and lower-case letters up to f, which no path takes apart.
abbrev pub IsHex : Text → Type 0
IsHex = All (λ c. is_hex c ≡ true)

hex_digit-IsHex : (d : ℕ) → d < 16 → is_hex (hex_digit d) ≡ true
unfolding hex_digit is_hex
hex_digit-IsHex d h = ground arith

append-IsHex : (xs ys : Text) → IsHex xs → IsHex ys → IsHex (xs ++ ys)
append-IsHex [] ys h k = k
append-IsHex (x ∷ xs) ys h k = (h.0, append-IsHex xs ys h.1 k)

hex_from-IsHex : (f n : ℕ) → IsHex (hex_from f n)
unfolding hex_from
hex_from-IsHex zero n = tt
hex_from-IsHex (suc f) n = elim (Bool-cases (ltb n 16)) [
  | inl small ↦ rw small (hex_digit-IsHex n (ground arith), tt)
  | inr big ↦ rw big (
      append-IsHex (hex_from f (n / 16)) (hex_digit (n % 16) ∷ []) (hex_from-IsHex f (n / 16))
        (hex_digit-IsHex (n % 16) (omega arith), tt))
]

zeros-IsHex : (k : ℕ) → IsHex (replicate k b'0')
unfolding is_hex
zeros-IsHex zero = tt
zeros-IsHex (suc k) = (refl, zeros-IsHex k)

read_hex_zeros : (k : ℕ) (ds : Text) → read_hex 0 (replicate k b'0' ++ ds) ≡ read_hex 0 ds
unfolding read_hex
read_hex_zeros zero ds = refl
read_hex_zeros (suc k) ds = read_hex_zeros k ds

length-zeros : (k : ℕ) → length (replicate {A = ℕ} k b'0') ≡ k
length-zeros zero = refl
length-zeros (suc k) = ap suc (length-zeros k)

hash_from-lt : (bytes : Text) (hash : ℕ) → hash < 2 ^ 128 → hash_from hash bytes < 2 ^ 128
unfolding hash_from
hash_from-lt [] hash h = h
hash_from-lt (b ∷ bytes) hash h = hash_from-lt bytes _ (omega arith)

-- A key is 32 hexadecimal digits, whatever text it is made of, and these are those of the hash: two
-- texts have one key only if they have one hash.
stable_hash_hex-IsHex :
    (input : Text)
    → IsHex (stable_hash_hex input)
      × (length (stable_hash_hex input) ≡ 32)
      × (read_hex 0 (stable_hash_hex input) ≡ stable_hash input)
unfolding stable_hash_hex
stable_hash_hex-IsHex input =
    let n = stable_hash input in
    let digits = hex_from 32 n in
    let k = 32 - length digits in
    let small : n < sixteen_to 32 = unfold stable_hash in hash_from-lt input _ (omega arith) in
    (
      append-IsHex (replicate k b'0') digits (zeros-IsHex k) (hex_from-IsHex 32 n),
      omega (arith, length-append (replicate k b'0') digits, length-zeros k, length-hex_from 32 n),
      read_hex_zeros k digits ∙ read_hex-hex_from 32 n small,
    )

stable_hash_test : stable_hash_hex (codes "") ≡ codes "6c62272e07bb014262b821756295c58d"
unfolding stable_hash_hex
stable_hash_test = refl

stable_hash_test_a : stable_hash_hex (codes "a") ≡ codes "d228cb696f1a8caf78912b704e4a8964"
unfolding stable_hash_hex
stable_hash_test_a = refl

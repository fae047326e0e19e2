-- ===== src/Netlink/Bytes.antt =====
-- netlink.rs, helpers: numbers in byte buffers, in the little-endian order of the machines that
-- the program runs on (x86_64, aarch64). An index outside a buffer panics.
use containerd_cloudhypervis.Common.{
  ℕ, zero, suc, ◌+◌, ◌-◌, ◌*◌, ◌/◌, ◌%◌, ◌^◌, ◌≡◌, refl, [], ◌∷◌, ◌++◌, Text, codes, length, take,
  drop, replicate, Result, ok, err, ◌>>=◌, leb, ◌==◌, if◌then◌else◌,
}
use Prim.Native.Nat.{bit_or}

-- How code stops without a result: by a panic, or in a loop that goes on for ever.
pub data Fault : Type 0 where
  panicked : Fault
  spinning : Fault

abbrev pub R : Type 0 → Type 0
R A = Result Fault A

-- `to_ne_bytes` of a u16 and of a u32; a greater number is cut by the `as` cast before it.
abbrev pub u16_bytes : ℕ → Text
u16_bytes n = (n % 256) ∷ (n / 256 % 256) ∷ []

abbrev pub u32_bytes : ℕ → Text
u32_bytes n = (n % 256) ∷ (n / 256 % 256) ∷ (n / 65536 % 256) ∷ (n / 16777216 % 256) ∷ []

byte : Text → R ℕ
byte [] = err panicked
byte (a ∷ b) = ok a

first_u16 : Text → R ℕ
first_u16 (a ∷ b ∷ rest) = ok (a + 256 * b)
first_u16 bs = err panicked

first_u32 : Text → R ℕ
first_u32 (a ∷ b ∷ c ∷ d ∷ rest) = ok (a + 256 * b + 65536 * c + 16777216 * d)
first_u32 bs = err panicked

-- `b[o]`.
unfoldable pub byte_at : Text → ℕ → R ℕ
unfolding byte
byte_at b o = byte (drop o b)

unfoldable pub u16_at : Text → ℕ → R ℕ
unfolding first_u16
u16_at b o = first_u16 (drop o b)

unfoldable pub u32_at : Text → ℕ → R ℕ
unfolding first_u32
u32_at b o = first_u32 (drop o b)

-- An i32 is read as its bit pattern, that of a u32.
unfoldable pub i32_at : Text → ℕ → R ℕ
unfolding first_u32
i32_at b o = first_u32 (drop o b)

-- `-e` of an i32.
abbrev pub negated : ℕ → ℕ
negated e = (2 ^ 32 - e) % 2 ^ 32

-- `(n + 3) & !3`.
abbrev pub align4 : ℕ → ℕ
align4 n = (n + 3) / 4 * 4

-- `m[o..o + bs.len()].copy_from_slice(bs)`.
unfoldable pub write_at : Text → ℕ → Text → R Text
write_at m o bs =
    if leb (o + length bs) (length m)
    then ok (take o m ++ bs ++ drop (o + length bs) m)
    else err panicked

-- `m[o] = b`.
abbrev pub set_byte : Text → ℕ → ℕ → R Text
set_byte m o b = write_at m o (b ∷ [])

unfoldable pub nlhdr : Text → ℕ → ℕ → ℕ → ℕ → R Text
nlhdr buf len ty flags seq = do
  buf ← write_at buf 0 (u32_bytes len)
  buf ← write_at buf 4 (u16_bytes ty)
  buf ← write_at buf 6 (u16_bytes flags)
  write_at buf 8 (u32_bytes seq)

-- `put_nla(&mut buf[o..], ty, payload_len)`.
unfoldable pub put_nla : Text → ℕ → ℕ → ℕ → R Text
put_nla buf o ty payload_len = do
  buf ← write_at buf o (u16_bytes (4 + payload_len))
  write_at buf (o + 2) (u16_bytes ty)

-- `while !buf.len().is_multiple_of(4) { buf.push(0) }`: three rounds are enough.
unfoldable pub pad_from : ℕ → Text → Text
pad_from zero buf = buf
pad_from (suc fuel) buf =
    let more = pad_from fuel (buf ++ 0 ∷ []) in if length buf % 4 == 0 then buf else more

unfoldable pub push_nla_str : Text → ℕ → Text → Text
unfolding pad_from
push_nla_str buf ty s =
    let len = 4 + length s + 1 in
    pad_from 3 (buf ++ (u16_bytes len ++ (u16_bytes ty ++ (s ++ 0 ∷ []))))

-- The length and the type of an attribute that ends with the buffer.
unfoldable pub close_at : Text → ℕ → ℕ → R Text
unfolding write_at
close_at buf start ty = do
  buf ← write_at buf start (u16_bytes (length buf - start))
  write_at buf (start + 2) (u16_bytes ty)

unfoldable pub close_nested : Text → ℕ → ℕ → R Text
unfolding close_at
close_nested buf start ty = close_at buf start (bit_or ty 0x8000)

-- The message that `get_link_index` sends.
unfoldable pub link_query : Text → ℕ → R Text
link_query name seq = do
  let attr = 4 + length name + 1
  let total = 16 + 16 + align4 attr
  m ← nlhdr (replicate total 0) total 18 5 seq
  m ← put_nla m 32 3 (length name + 1)
  write_at m 36 name

header_test :
    nlhdr (replicate 16 0) 32 16 5 1
    ≡ ok (32 ∷ 0 ∷ 0 ∷ 0 ∷ 16 ∷ 0 ∷ 5 ∷ 0 ∷ 1 ∷ 0 ∷ 0 ∷ 0 ∷ 0 ∷ 0 ∷ 0 ∷ 0 ∷ [])
unfolding nlhdr write_at
header_test = refl

nested_test : close_nested (0 ∷ 0 ∷ 0 ∷ 0 ∷ 9 ∷ []) 0 2 ≡ ok (5 ∷ 0 ∷ 2 ∷ 0x80 ∷ 9 ∷ [])
unfolding close_nested
nested_test = refl

push_test : push_nla_str [] 1 (codes "u32") ≡ 8 ∷ 0 ∷ 1 ∷ 0 ∷ b'u' ∷ b'3' ∷ b'2' ∷ 0 ∷ []
unfolding push_nla_str
push_test = refl

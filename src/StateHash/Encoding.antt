-- ===== src/StateHash/Encoding.antt =====
-- The hash of src/common/sf4e__StateHash.hxx depends on its fields through their encoding alone.
use Prim.Native.Nat.{bit_xor}
use sf4_netplay_launcher.Prelude.{
  ◌+◌, ◌*◌, ℕ, zero, suc, ◌/◌, ◌%◌, ◌^◌, ◌≡◌, refl, sym, ◌∙◌, ap, List, [], ◌∷◌, ◌++◌, arith, Bytes,
}
use sf4_netplay_launcher.Prelude.Int.{ℤ}
use sf4_netplay_launcher.StateHash.{
  Hasher, init, u8, u16, u32, u64, i16, i32, f32, fixed, to_unsigned,
}

-- What a checkpoint feeds to the hasher, one constructor for each member function.
pub data Field : Type 0 where
  byte word dword qword float : ℕ → Field
  short int : ℤ → Field
  fixed_point : ℕ → ℤ → Field

-- The `w` low bytes of a number, the least significant first.
abbrev pub little_endian : ℕ → ℕ → Bytes
little_endian zero v = []
little_endian (suc w) v = (v % 256) ∷ little_endian w (v / 256)

abbrev pub encode : Field → Bytes
encode (byte v) = little_endian 1 v
encode (word v) = little_endian 2 v
encode (dword v) = little_endian 4 v
encode (qword v) = little_endian 8 v
encode (float bits) = little_endian 4 bits
encode (short v) = little_endian 2 (to_unsigned 16 v)
encode (int v) = little_endian 4 (to_unsigned 32 v)
encode (fixed_point f i) = little_endian 2 f ++ little_endian 2 (to_unsigned 16 i)

abbrev pub encode_all : List Field → Bytes
encode_all [] = []
encode_all (f ∷ fs) = encode f ++ encode_all fs

-- One call; the argument of U8 is a uint8_t.
unfoldable pub hash_field : Hasher → Field → Hasher
hash_field s (byte v) = u8 s (v % 256)
hash_field s (word v) = u16 s v
hash_field s (dword v) = u32 s v
hash_field s (qword v) = u64 s v
hash_field s (float bits) = f32 s bits
hash_field s (short v) = i16 s v
hash_field s (int v) = i32 s v
hash_field s (fixed_point f i) = fixed s f i

unfoldable pub hash_fields : Hasher → List Field → Hasher
hash_fields s [] = s
hash_fields s (f ∷ fs) = hash_fields (hash_field s f) fs

-- The hasher over a byte stream.
unfoldable pub feed : Hasher → Bytes → Hasher
feed s [] = s
feed s (b ∷ bs) = feed (u8 s b) bs

pub feed-append : (s : Hasher) (xs ys : Bytes) → feed s (xs ++ ys) ≡ feed (feed s xs) ys
unfolding feed
feed-append s [] ys = refl
feed-append s (x ∷ xs) ys = feed-append (u8 s x) xs ys

pub feed-append_cons :
    (s : Hasher) (xs : Bytes) (b : ℕ) (ys : Bytes)
    → feed s (xs ++ b ∷ ys) ≡ feed (u8 (feed s xs) b) ys
unfolding feed
feed-append_cons s xs b ys = feed-append s xs (b ∷ ys)

u16-feed : (s : Hasher) (v : ℕ) → u16 s v ≡ feed s (little_endian 2 v)
unfolding u16 feed
u16-feed s v = refl

-- A dword splits into two words of the stream, a qword into two dwords.
split_dword : (v : ℕ) → little_endian 4 v ≡ little_endian 2 v ++ little_endian 2 (v / 2 ^ 16)
split_dword v = ground arith

split_qword :
    (v : ℕ) → little_endian 8 v ≡ little_endian 4 (v % 2 ^ 32) ++ little_endian 4 (v / 2 ^ 32)
split_qword v = ground arith

u32-feed : (s : Hasher) (v : ℕ) → u32 s v ≡ feed s (little_endian 4 v)
unfolding u32 feed
u32-feed s v = ground arith

u64-feed : (s : Hasher) (v : ℕ) → u64 s v ≡ feed s (little_endian 8 v)
unfolding u64
u64-feed s v = simp (split_qword v, feed-append, u32-feed)

hash_field-feed : (s : Hasher) (f : Field) → hash_field s f ≡ feed s (encode f)
unfolding hash_field i16 i32 f32 fixed
hash_field-feed s (byte v) = unfold feed in refl
hash_field-feed s (word v) = u16-feed s v
hash_field-feed s (dword v) = u32-feed s v
hash_field-feed s (qword v) = u64-feed s v
hash_field-feed s (float bits) = u32-feed s bits
hash_field-feed s (short v) = u16-feed s _
hash_field-feed s (int v) = u32-feed s _
hash_field-feed s (fixed_point f i) =
    simp (u16-feed, feed-append s (little_endian 2 f) (little_endian 2 (to_unsigned 16 i)))

-- FNV-1a of 64 bits over a byte stream, as published: of the hash so far the low byte is mixed with
-- the next byte of the stream, and only then the hash is multiplied by the prime.
abbrev pub fnv1a : ℕ → Bytes → ℕ
fnv1a hash [] = hash
fnv1a hash (b ∷ bs) = fnv1a (bit_xor hash b * (2 ^ 40 + 2 ^ 8 + 0xb3) % 2 ^ 64) bs

feed-fnv1a : (s : Hasher) (bs : Bytes) → (feed s bs).h ≡ fnv1a s.h bs
unfolding feed u8
feed-fnv1a s [] = refl
feed-fnv1a s (b ∷ bs) = feed-fnv1a (u8 s b) bs

pub hash_fields-feed : (s : Hasher) (fs : List Field) → hash_fields s fs ≡ feed s (encode_all fs)
unfolding hash_fields
hash_fields-feed s [] = unfold feed in refl
hash_fields-feed s (f ∷ fs) =
    hash_fields-feed (hash_field s f) fs
    ∙ ap (λ t. feed t (encode_all fs)) (hash_field-feed s f)
    ∙ sym (feed-append s (encode f) (encode_all fs))

-- A new hasher that is given any sequence of fields has the 64-bit FNV-1a hash, from the offset basis
-- 0xcbf29ce484222325, of the concatenation of their little-endian encodings, each at its declared
-- width, signed values in two's complement: nothing else enters the hash.
pub hash_fields-fnv1a :
    (fs : List Field) → (hash_fields init fs).h ≡ fnv1a 0xcbf29ce484222325 (encode_all fs)
hash_fields-fnv1a fs = ap (λ s. s.h) (hash_fields-feed init fs) ∙ feed-fnv1a init (encode_all fs)

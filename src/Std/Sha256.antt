-- ===== src/Std/Sha256.antt =====
-- crypto/sha256 (FIPS 180-4) over bytes.
use Prim.Native.Nat.{bit_and, bit_xor}
use mitrity_go.Base.{
  ℕ, zero, suc, ◌+◌, ◌-◌, ◌*◌, ◌/◌, ◌%◌, ◌^◌, List, [], ◌∷◌, ◌++◌, Bytes, length, replicate, take,
  drop, get_or,
}

abbrev word : ℕ
word = 2 ^ 32

unfoldable rotate : ℕ → ℕ → ℕ
rotate n x = x / 2 ^ n + x % 2 ^ n * 2 ^ (32 - n)

abbrev xor3 : ℕ → ℕ → ℕ → ℕ
xor3 a b c = bit_xor (bit_xor a b) c

abbrev constants : List ℕ
constants =
    0x428a2f98 ∷ 0x71374491 ∷ 0xb5c0fbcf ∷ 0xe9b5dba5 ∷ 0x3956c25b ∷ 0x59f111f1 ∷ 0x923f82a4
    ∷ 0xab1c5ed5 ∷ 0xd807aa98 ∷ 0x12835b01 ∷ 0x243185be ∷ 0x550c7dc3 ∷ 0x72be5d74 ∷ 0x80deb1fe
    ∷ 0x9bdc06a7 ∷ 0xc19bf174 ∷ 0xe49b69c1 ∷ 0xefbe4786 ∷ 0x0fc19dc6 ∷ 0x240ca1cc ∷ 0x2de92c6f
    ∷ 0x4a7484aa ∷ 0x5cb0a9dc ∷ 0x76f988da ∷ 0x983e5152 ∷ 0xa831c66d ∷ 0xb00327c8 ∷ 0xbf597fc7
    ∷ 0xc6e00bf3 ∷ 0xd5a79147 ∷ 0x06ca6351 ∷ 0x14292967 ∷ 0x27b70a85 ∷ 0x2e1b2138 ∷ 0x4d2c6dfc
    ∷ 0x53380d13 ∷ 0x650a7354 ∷ 0x766a0abb ∷ 0x81c2c92e ∷ 0x92722c85 ∷ 0xa2bfe8a1 ∷ 0xa81a664b
    ∷ 0xc24b8b70 ∷ 0xc76c51a3 ∷ 0xd192e819 ∷ 0xd6990624 ∷ 0xf40e3585 ∷ 0x106aa070 ∷ 0x19a4c116
    ∷ 0x1e376c08 ∷ 0x2748774c ∷ 0x34b0bcb5 ∷ 0x391c0cb3 ∷ 0x4ed8aa4a ∷ 0x5b9cca4f ∷ 0x682e6ff3
    ∷ 0x748f82ee ∷ 0x78a5636f ∷ 0x84c87814 ∷ 0x8cc70208 ∷ 0x90befffa ∷ 0xa4506ceb ∷ 0xbef9a3f7
    ∷ 0xc67178f2 ∷ []

record Hash : Type 0 where
  a : ℕ
  b : ℕ
  c : ℕ
  d : ℕ
  e : ℕ
  f : ℕ
  g : ℕ
  h : ℕ

abbrev initial : Hash
initial = record {
  a = 0x6a09e667;
  b = 0xbb67ae85;
  c = 0x3c6ef372;
  d = 0xa54ff53a;
  e = 0x510e527f;
  f = 0x9b05688c;
  g = 0x1f83d9ab;
  h = 0x5be0cd19;
}

-- One round, with its constant and its word of the schedule.
unfoldable round : Hash → ℕ → ℕ → Hash
unfolding rotate
round s k w =
    let s1 : ℕ = xor3 (rotate 6 s.e) (rotate 11 s.e) (rotate 25 s.e) in
    let ch : ℕ = bit_xor (bit_and s.e s.f) (bit_and (word - 1 - s.e) s.g) in
    let t1 : ℕ = s.h + s1 + ch + k + w in
    let s0 : ℕ = xor3 (rotate 2 s.a) (rotate 13 s.a) (rotate 22 s.a) in
    let maj : ℕ = xor3 (bit_and s.a s.b) (bit_and s.a s.c) (bit_and s.b s.c) in
    record {
      a = (t1 + s0 + maj) % word;
      b = s.a;
      c = s.b;
      d = s.c;
      e = (s.d + t1) % word;
      f = s.e;
      g = s.f;
      h = s.g;
    }

-- The next word of the schedule, from the last sixteen.
unfoldable next_word : List ℕ → ℕ
unfolding rotate
next_word l =
    let x : ℕ = get_or l 1 0 in
    let y : ℕ = get_or l 14 0 in
    (get_or l 0 0
      + xor3 (rotate 7 x) (rotate 18 x) (x / 2 ^ 3)
      + get_or l 9 0
      + xor3 (rotate 17 y) (rotate 19 y) (y / 2 ^ 10))
    % word

-- The rounds of a block: `l` holds the next sixteen words.
unfoldable rounds : List ℕ → List ℕ → Hash → Hash
unfolding round next_word
rounds [] l s = s
rounds (k ∷ ks) l s = rounds ks (drop 1 l ++ next_word l ∷ []) (round s k (get_or l 0 0))

unfoldable words : Bytes → List ℕ
words (a ∷ b ∷ c ∷ d ∷ s) = (a * 2 ^ 24 + b * 2 ^ 16 + c * 2 ^ 8 + d) ∷ words s
words _ = []

unfoldable add_hash : Hash → Hash → Hash
add_hash s t = record {
  a = (s.a + t.a) % word;
  b = (s.b + t.b) % word;
  c = (s.c + t.c) % word;
  d = (s.d + t.d) % word;
  e = (s.e + t.e) % word;
  f = (s.f + t.f) % word;
  g = (s.g + t.g) % word;
  h = (s.h + t.h) % word;
}

-- The padded text, a block of 64 bytes for each unit of fuel.
unfoldable blocks : ℕ → Bytes → Hash → Hash
unfolding rounds words add_hash
blocks zero s t = t
blocks (suc n) s t = blocks n (drop 64 s) (add_hash t (rounds constants (words (take 64 s)) t))

-- A number as `n` bytes, the highest first.
unfoldable pub big_endian : ℕ → ℕ → Bytes
big_endian zero x = []
big_endian (suc n) x = big_endian n (x / 256) ++ (x % 256) ∷ []

unfoldable pad : Bytes → Bytes
unfolding big_endian
pad s = s ++ 0x80 ∷ (replicate ((119 - length s % 64) % 64) 0 ++ big_endian 8 (8 * length s))

abbrev digest : Hash → Bytes
digest s =
    big_endian 4 s.a
    ++ (big_endian 4 s.b
        ++ (big_endian 4 s.c
            ++ (big_endian 4 s.d
                ++ (big_endian 4 s.e
                    ++ (big_endian 4 s.f ++ (big_endian 4 s.g ++ big_endian 4 s.h))))))

unfoldable pub sha256 : Bytes → Bytes
unfolding pad blocks big_endian
sha256 s = let p = pad s in digest (blocks (length p / 64) p initial)

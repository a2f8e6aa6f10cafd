-- ===== src/Gateway/Wire.antt =====
-- sw/gateway/itc_gw_proto.h, and `struct itc_message` of itc_impl.h, as bytes. The hosts are little
-- endian: a 32-bit word stands in memory with its lowest byte first, and htonl turns it round.
use itc_framework.Base.{
  ℕ, ◌+◌, ◌*◌, ◌/◌, ◌%◌, ◌^◌, ◌<◌, ◌≡◌, Option, none, some, List, [], ◌∷◌, ◌++◌, arith,
}

-- The four bytes of a word in memory, and the word that four bytes make.
unfoldable pub store32 : ℕ → List ℕ
store32 v = (v % 256) ∷ (v / 256 % 256) ∷ (v / 65536 % 256) ∷ (v / 16777216 % 256) ∷ []

abbrev pub word : (a b c d : ℕ) → ℕ
word a b c d = a + b * 256 + c * 65536 + d * 16777216

-- htonl, and ntohl as well.
unfoldable pub htonl : ℕ → ℕ
htonl v = word (v / 16777216 % 256) (v / 65536 % 256) (v / 256 % 256) (v % 256)

abbrev pub IsWord : ℕ → Type 0
IsWord v = v < 2 ^ 32

pub htonl-htonl : (v : ℕ) → IsWord v → htonl (htonl v) ≡ v
unfolding htonl
htonl-htonl v h = omega arith

pub htonl-IsWord : (v : ℕ) → IsWord (htonl v)
unfolding htonl
htonl-IsWord v = omega arith

-- A word at the front of a buffer, and what stands behind it. `none` is a read behind its end.
unfoldable pub load32 : List ℕ → Option (ℕ × List ℕ)
load32 (a ∷ b ∷ c ∷ d ∷ rest) = some (word a b c d, rest)
load32 _ = none

pub load32-store32 :
    (v : ℕ) (rest : List ℕ) → IsWord v → load32 (store32 v ++ rest) ≡ some (v, rest)
unfolding load32 store32
load32-store32 v rest h =
    let e : word (v % 256) (v / 256 % 256) (v / 65536 % 256) (v / 16777216 % 256) ≡ v =
      omega arith in
    rw e

pub load32-store32_end : (v : ℕ) → IsWord v → load32 (store32 v) ≡ some (v, [])
unfolding load32 store32
load32-store32_end v h =
    let e : word (v % 256) (v / 256 % 256) (v / 65536 % 256) (v / 16777216 % 256) ≡ v =
      omega arith in
    rw e

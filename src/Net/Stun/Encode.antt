-- ===== src/Net/Stun/Encode.antt =====
-- The XOR-MAPPED-ADDRESS attribute as a server writes it, and how it is read behind a prefix.
use chess_rts.Base.{
  ℕ, suc, ◌+◌, ◌*◌, ◌/◌, ◌%◌, ◌^◌, ◌<◌, ◌≤◌, ◌≡◌, refl, ap, ◌∙◌, some, List, [], ◌∷◌, ◌++◌, arith,
  length, get_elem?, bit_or, bit_xor, get_elem?-append, length-append, lt→ltb, le→leb,
}
use mathlib.Core.Path.{ap₂}
use chess_rts.Base.Bits.{bit_or_fields, bit_xor_undo, bit_xor-lt}
use chess_rts.Net.Stun.{mapped, join, read_u16, read_u32, mapped_address, find_mapped, magic_cookie}

-- Numbers in network byte order.
abbrev pub put_u16 : ℕ → List ℕ
put_u16 n = n / 256 ∷ n % 256 ∷ []

abbrev pub put_u32 : ℕ → List ℕ
put_u32 n = put_u16 (n / 2 ^ 16) ++ put_u16 (n % 2 ^ 16)

-- XOR-MAPPED-ADDRESS for IPv4.
abbrev pub put_mapped : ℕ → ℕ → List ℕ
put_mapped ip port =
    put_u16 0x0020
    ++ (put_u16 8
        ++ (0 ∷ 0x01 ∷ put_u16 (bit_xor port 0x2112) ++ put_u32 (bit_xor ip magic_cookie)))

pub read_u16-append :
    (pre post : List ℕ) (i : ℕ) → read_u16 (pre ++ post) (length pre + i) ≡ read_u16 post i
unfolding read_u16
read_u16-append pre post i = ap₂ (join 8) (get_elem?-append pre post i) (
    ap (get_elem? (pre ++ post)) {x = length pre + i + 1} {y = length pre + (i + 1)} (omega arith)
    ∙ get_elem?-append pre post (i + 1))

read_u32-append :
    (pre post : List ℕ) (i : ℕ) → read_u32 (pre ++ post) (length pre + i) ≡ read_u32 post i
unfolding read_u32
read_u32-append pre post i = ap₂ (join 16) (read_u16-append pre post i) (
    ap (read_u16 (pre ++ post)) {x = length pre + i + 2} {y = length pre + (i + 2)} (omega arith)
    ∙ read_u16-append pre post (i + 2))

pub read_u16-append_zero :
    (pre post : List ℕ) → read_u16 (pre ++ post) (length pre) ≡ read_u16 post 0
read_u16-append_zero pre post =
    ap (read_u16 (pre ++ post)) {x = length pre} {y = length pre + 0} (omega arith)
    ∙ read_u16-append pre post 0

-- The two bytes of a number below 2 ^ 16, read back.
pub read_bytes : (n : ℕ) → n < 2 ^ 16 → bit_or (n / 256 * 2 ^ 8) (n % 256) % 2 ^ 16 ≡ n
read_bytes n h = omega (arith, bit_or_fields 8 (n / 256) (n % 256) (omega arith))

read_words : (n : ℕ) → n < 2 ^ 32 → bit_or (n / 2 ^ 16 * 2 ^ 16) (n % 2 ^ 16) % 2 ^ 32 ≡ n
read_words n h = omega (arith, bit_or_fields 16 (n / 2 ^ 16) (n % 2 ^ 16) (omega arith))

-- Behind `pre`, the mapped address is found at once.
module _ (ip port : ℕ) (ip_fits : ip < 2 ^ 32) (port_fits : port < 2 ^ 16) where
  here_kind : (rest : List ℕ) → read_u16 (put_mapped ip port ++ rest) 0 ≡ some 0x0020
  unfolding read_u16
  here_kind rest = refl

  here_len : (rest : List ℕ) → read_u16 (put_mapped ip port ++ rest) 2 ≡ some 8
  unfolding read_u16
  here_len rest = refl

  here_port : (rest : List ℕ) → read_u16 (put_mapped ip port ++ rest) 6 ≡ some (bit_xor port 0x2112)
  unfolding read_u16
  here_port rest =
      ap some (read_bytes (bit_xor port 0x2112) (bit_xor-lt 16 port 0x2112 port_fits (omega arith)))

  here_ip :
      (rest : List ℕ) → read_u32 (put_mapped ip port ++ rest) 8 ≡ some (bit_xor ip magic_cookie)
  unfolding read_u32 read_u16
  here_ip rest =
      let word : bit_xor ip magic_cookie < 2 ^ 32 =
        bit_xor-lt 32 ip magic_cookie ip_fits (omega arith) in
      rw
        (
          read_bytes (bit_xor ip magic_cookie / 2 ^ 16) (omega arith),
          read_bytes (bit_xor ip magic_cookie % 2 ^ 16) (omega arith),
        )
        (ap some (read_words (bit_xor ip magic_cookie) word))

  abbrev answer : List ℕ → List ℕ → List ℕ
  answer pre rest = pre ++ (put_mapped ip port ++ rest)

  room_here : (pre rest : List ℕ) → length pre + 12 ≤ length (answer pre rest)
  room_here pre rest = omega (arith, length-append pre (put_mapped ip port ++ rest))

  family_here : (pre rest : List ℕ) → get_elem? (answer pre rest) (length pre + 5) ≡ some 0x01
  family_here pre rest = get_elem?-append pre (put_mapped ip port ++ rest) 5

  mapped_here :
      (pre rest : List ℕ) → mapped_address (answer pre rest) (length pre) 8 ≡ some (mapped ip port)
  unfolding mapped_address
  mapped_here pre rest =
      rw
        (
          le→leb (length pre + 12) (length (answer pre rest)) (room_here pre rest),
          family_here pre rest,
          read_u16-append pre (put_mapped ip port ++ rest) 6 ∙ here_port rest,
          read_u32-append pre (put_mapped ip port ++ rest) 8 ∙ here_ip rest,
          mapped_address,
        )
        (rw (bit_xor_undo ip magic_cookie, bit_xor_undo port 0x2112))

  pub found_here :
      (fuel msg_len : ℕ) (pre rest : List ℕ)
      → length pre < 20 + msg_len
      → find_mapped (suc fuel) (answer pre rest) msg_len (length pre) ≡ mapped ip port
  unfolding find_mapped
  found_here fuel msg_len pre rest h = rw (
    lt→ltb (length pre) (20 + msg_len) h,
    le→leb (length pre + 4) (length (answer pre rest)) (omega (arith, room_here pre rest)),
    read_u16-append_zero pre (put_mapped ip port ++ rest) ∙ here_kind rest,
    read_u16-append pre (put_mapped ip port ++ rest) 2 ∙ here_len rest,
    mapped_here pre rest,
    find_mapped,
  )

-- ===== src/Net/Stun/Answer.antt =====
-- A response that carries an XOR-MAPPED-ADDRESS gives the address that the server put in.
use chess_rts.Base.{
  ℕ, zero, suc, ◌+◌, ◌-◌, ◌^◌, ◌<◌, ◌≤◌, ◌≡◌, ◌≢◌, ap, sym, ◌∙◌, some, List, [], ◌∷◌, ◌++◌, arith,
  length, replicate, length-append, length-replicate, ne→==_false, lt→ltb, le→leb,
}
use mathlib.Core.Path.{ap₂}
use mathlib.Core.List.{append_assoc}
use chess_rts.Base.Bits.{bit_and_not_three}
use chess_rts.Net.Stun.Encode.{
  put_u16, put_mapped, read_u16-append, read_u16-append_zero, read_bytes, found_here,
}
use chess_rts.Net.Stun.{mapped, read_u16, padded_len, find_mapped, parse_response}

-- An attribute of another kind, with the padding to a multiple of four bytes.
pub record Attribute : Type 0 where
  pub kind : ℕ
  pub body : List ℕ

abbrev pub IsOther : Attribute → Type 0
IsOther a = (a.kind < 2 ^ 16) × (a.kind ≢ 0x0020) × (length a.body < 2 ^ 16)

abbrev pub put_attribute : Attribute → List ℕ
put_attribute a =
    put_u16 a.kind
    ++ (put_u16 (length a.body)
        ++ (a.body ++ replicate (padded_len (length a.body) - length a.body) 0))

length-put_attribute :
    (a : Attribute) → IsOther a → length (put_attribute a) ≡ 4 + padded_len (length a.body)
length-put_attribute a h = omega (
  arith,
  length-append (a.body) (replicate (padded_len (length a.body) - length a.body) 0),
  length-replicate {A = ℕ} (padded_len (length a.body) - length a.body) 0,
  bit_and_not_three (length a.body + 3) (omega arith),
)

abbrev pub put_all : List Attribute → List ℕ
put_all [] = []
put_all (a ∷ attrs) = put_attribute a ++ put_all attrs

abbrev pub AreOther : List Attribute → Type 0
AreOther [] = Unit
AreOther (a ∷ attrs) = IsOther a × AreOther attrs

other_kind :
    (a : Attribute) (rest : List ℕ) → IsOther a → read_u16 (put_attribute a ++ rest) 0 ≡ some a.kind
unfolding read_u16
other_kind a rest h = ap some (read_bytes a.kind h.0)

other_len :
    (a : Attribute) (rest : List ℕ)
    → IsOther a
    → read_u16 (put_attribute a ++ rest) 2 ≡ some (length a.body)
unfolding read_u16
other_len a rest h = ap some (read_bytes (length a.body) h.2)

-- An attribute of another kind is stepped over.
skip_other :
    (fuel msg_len : ℕ) (pre : List ℕ) (a : Attribute) (rest : List ℕ)
    → IsOther a
    → length pre < 20 + msg_len
    → let resp = pre ++ (put_attribute a ++ rest) in
      find_mapped (suc fuel) resp msg_len (length pre)
      ≡ find_mapped fuel resp msg_len (length pre + (4 + padded_len (length a.body)))
unfolding find_mapped
skip_other fuel msg_len pre a rest h lt =
    let resp : List ℕ = pre ++ (put_attribute a ++ rest) in
    let room : length pre + 4 ≤ length resp =
      omega (arith, length-append pre (put_attribute a ++ rest)) in
    rw (
      lt→ltb (length pre) (20 + msg_len) lt,
      le→leb (length pre + 4) (length resp) room,
      read_u16-append_zero pre (put_attribute a ++ rest) ∙ other_kind a rest h,
      read_u16-append pre (put_attribute a ++ rest) 2 ∙ other_len a rest h,
      ne→==_false a.kind 0x0020 h.1,
      find_mapped,
    )

module _ (ip port : ℕ) (ip_fits : ip < 2 ^ 32) (port_fits : port < 2 ^ 16) (msg_len : ℕ)
    (rest : List ℕ) where
  find_behind :
      (fuel : ℕ) (pre : List ℕ) (attrs : List Attribute)
      → AreOther attrs
      → length attrs < fuel
      → length pre + length (put_all attrs) < 20 + msg_len
      → find_mapped fuel
          (pre ++ (put_all attrs ++ (put_mapped ip port ++ rest)))
          msg_len
          (length pre)
        ≡ mapped ip port
  find_behind zero pre attrs h f lt = absurd (omega arith)
  find_behind (suc fuel) pre [] h f lt =
      found_here ip port ip_fits port_fits fuel msg_len pre rest (omega arith)
  find_behind (suc fuel) pre (a ∷ attrs) h f lt =
      let tail : List ℕ = put_all attrs ++ (put_mapped ip port ++ rest) in
      let len : length (pre ++ put_attribute a) ≡ length pre + (4 + padded_len (length a.body)) =
        omega (arith, length-append pre (put_attribute a), length-put_attribute a h.0) in
      rw (append_assoc (put_attribute a) (put_all attrs) (put_mapped ip port ++ rest)) (
        skip_other fuel msg_len pre a tail h.0 (omega arith)
        ∙ ap₂ (λ resp offset. find_mapped fuel resp msg_len offset)
            (sym (append_assoc pre (put_attribute a) tail)) (sym len)
        ∙ find_behind fuel (pre ++ put_attribute a) attrs h.1 (omega arith) (
            omega (
              arith,
              len,
              length-append pre (put_attribute a),
              length-append (put_attribute a) (put_all attrs),
            )))

-- A binding response header: its kind, the length of the attributes, and 16 bytes of cookie and id.
abbrev pub put_header : ℕ → List ℕ → List ℕ
put_header msg_len id = 0x01 ∷ 0x01 ∷ put_u16 msg_len ++ id

length-attrs-le : (attrs : List Attribute) → length attrs ≤ length (put_all attrs)
length-attrs-le [] = omega arith
length-attrs-le (a ∷ attrs) =
    omega (arith, length-append (put_attribute a) (put_all attrs), length-attrs-le attrs)

-- A response that carries an XOR-MAPPED-ADDRESS for IPv4, behind any attributes of other kinds and
-- before any further bytes, gives the address and port that the server put in.
pub parse-put_response :
    (ip port msg_len : ℕ) (id rest : List ℕ) (attrs : List Attribute)
    → ip < 2 ^ 32
    → port < 2 ^ 16
    → msg_len < 2 ^ 16
    → length id ≡ 16
    → AreOther attrs
    → length (put_all attrs) < msg_len
    → parse_response (put_header msg_len id ++ (put_all attrs ++ (put_mapped ip port ++ rest)))
      ≡ mapped ip port
unfolding parse_response read_u16
parse-put_response ip port msg_len id rest attrs hip hport hlen hid h lt =
    let pre : List ℕ = put_header msg_len id in
    let tail : List ℕ = put_all attrs ++ (put_mapped ip port ++ rest) in
    let size : length (pre ++ tail) ≡ 20 + length tail = omega (arith, length-append pre tail) in
    let more : length (put_all attrs) ≤ length tail =
      omega (arith, length-append (put_all attrs) (put_mapped ip port ++ rest)) in
    rw (le→leb 20 (length (pre ++ tail)) (omega arith), read_bytes msg_len hlen, parse_response)
      (ap (find_mapped (length (pre ++ tail)) (pre ++ tail) msg_len) {x = 20} {y = length pre}
          (omega arith)
        ∙ find_behind ip port hip hport msg_len rest (length (pre ++ tail)) pre attrs h
            (omega (arith, length-attrs-le attrs)) (omega arith))

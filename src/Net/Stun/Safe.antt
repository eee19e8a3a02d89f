-- ===== src/Net/Stun/Safe.antt =====
-- No response makes the parser read past the received bytes, and it always ends.
use chess_rts.Base.{
  ℕ, zero, suc, ◌+◌, ◌*◌, ◌%◌, ◌^◌, ◌<◌, ◌≤◌, ◌≡◌, Option, none, some, List, [], ◌∷◌, if◌then◌else◌,
  ◌==◌, arith, length, get_or, get_elem?-eq-get_or, bit_or, Bool, true, false, Bool-cases, ltb, leb,
  ◌&&◌, inl, inr,
}
use chess_rts.Net.Stun.{
  Parsed, mapped, absent, overrun, stuck, read_u16, read_u32, mapped_address, padded_len,
  find_mapped, parse_response, Inbox, stun_wait, vx_net_stun_punch,
}

-- An outcome that is a real answer or its absence.
abbrev pub IsDefined : Parsed → Type 0
IsDefined (mapped ip port) = Unit
IsDefined absent = Unit
IsDefined overrun = ⊥
IsDefined stuck = ⊥

read_u16-some : (resp : List ℕ) (i : ℕ) → i + 1 < length resp → (v : ℕ) × (read_u16 resp i ≡ some v)
unfolding read_u16
read_u16-some resp i h = (
  bit_or (get_or resp i 0 * 2 ^ 8) (get_or resp (i + 1) 0) % 2 ^ 16,
  rw (get_elem?-eq-get_or resp i 0 (omega arith), get_elem?-eq-get_or resp (i + 1) 0 h, read_u16),
)

read_u32-some : (resp : List ℕ) (i : ℕ) → i + 3 < length resp → (v : ℕ) × (read_u32 resp i ≡ some v)
unfolding read_u32
read_u32-some resp i h =
    let (hi, p) = read_u16-some resp i (omega arith) in
    let (lo, q) = read_u16-some resp (i + 2) (omega arith) in
    (bit_or (hi * 2 ^ 16) lo % 2 ^ 32, rw (p, q, read_u32))

abbrev Settled : Option Parsed → Type 0
Settled none = Unit
Settled (some p) = IsDefined p

Settled-if : (b : Bool) (ip port : ℕ) → Settled (if b then some (mapped ip port) else none)
Settled-if true ip port = tt
Settled-if false ip port = tt

mapped_address-Settled :
    (resp : List ℕ) (offset attr_len : ℕ) → Settled (mapped_address resp offset attr_len)
unfolding mapped_address
mapped_address-Settled resp offset attr_len =
    elim (Bool-cases (leb 8 attr_len && leb (offset + 12) (length resp))) [
      | inr short ↦ rw short tt
      | inl long ↦
          let room : offset + 12 ≤ length resp = ground arith in
          let (xport, p) = read_u16-some resp (offset + 6) (omega arith) in
          let (xip, q) = read_u32-some resp (offset + 8) (omega arith) in
          rw (long, get_elem?-eq-get_or resp (offset + 5) 0 (omega arith), p, q, mapped_address)
            (Settled-if _ _ _)
    ]

settle :
    (o : Option Parsed) (next : Parsed)
    → Settled o
    → IsDefined next
    → IsDefined (elim o [ some result ↦ result | none ↦ next ])
settle none next p q = q
settle (some result) next p q = p

Settled-test : (b : Bool) (o : Option Parsed) → Settled o → Settled (if b then o else none)
Settled-test true o p = p
Settled-test false o p = tt

find_mapped-IsDefined :
    (fuel : ℕ) (resp : List ℕ) (msg_len offset : ℕ)
    → 0 < fuel
    → length resp < offset + fuel
    → IsDefined (find_mapped fuel resp msg_len offset)
unfolding find_mapped
find_mapped-IsDefined zero resp msg_len offset pos h = absurd (omega arith)
find_mapped-IsDefined (suc fuel) resp msg_len offset pos h =
    elim (Bool-cases (ltb offset (20 + msg_len) && leb (offset + 4) (length resp))) [
      | inr done ↦ rw (done, find_mapped, IsDefined) tt
      | inl more ↦
          let room : offset + 4 ≤ length resp = ground arith in
          let (attr_type, p) = read_u16-some resp offset (omega arith) in
          let (attr_len, q) = read_u16-some resp (offset + 2) (omega arith) in
          let next = offset + (4 + padded_len attr_len) in
          rw (more, p, q, find_mapped, IsDefined)
            (settle _ _
              (Settled-test (attr_type == 0x0020) _ (mapped_address-Settled resp offset attr_len))
              (find_mapped-IsDefined fuel resp msg_len next (omega arith) (omega arith)))
    ]

-- Whatever bytes a response holds, the parser reads none past them, and its loop ends.
pub parse_response-IsDefined : (resp : List ℕ) → IsDefined (parse_response resp)
unfolding parse_response
parse_response-IsDefined resp = elim (Bool-cases (leb 20 (length resp))) [
  | inr short ↦ rw short tt
  | inl long ↦
      let room : 20 ≤ length resp = ground arith in
      let (msg_len, p) = read_u16-some resp 2 (omega arith) in
      rw (long, p, parse_response)
        (find_mapped-IsDefined (length resp) resp msg_len 20 (omega arith) (omega arith))
]

stun_wait-IsDefined : (rounds : ℕ) (inbox : Inbox) → IsDefined (stun_wait rounds inbox)
unfolding stun_wait
stun_wait-IsDefined zero inbox = tt
stun_wait-IsDefined (suc rounds) [] = tt
stun_wait-IsDefined (suc rounds) (none ∷ inbox) = stun_wait-IsDefined rounds inbox
stun_wait-IsDefined (suc rounds) (some resp ∷ inbox) =
    next (parse_response resp) (parse_response-IsDefined resp) (stun_wait-IsDefined rounds inbox)
  where
    next :
        (r : Parsed)
        → IsDefined r
        → IsDefined (stun_wait rounds inbox)
        → IsDefined (elim r [
          | mapped ip port ↦ mapped ip port
          | absent ↦ stun_wait rounds inbox
          | overrun ↦ overrun
          | stuck ↦ stuck
        ])
    next (mapped ip port) d ih = tt
    next absent d ih = ih
    next overrun d ih = d
    next stuck d ih = d

-- Whatever datagrams arrive during the punch, no byte is read past the end of one, and the call
-- ends with an address or without one.
pub stun_punch-IsDefined :
    (sock : Option ℕ) (inbox : Inbox) → IsDefined (vx_net_stun_punch sock inbox).1
unfolding vx_net_stun_punch
stun_punch-IsDefined none inbox = tt
stun_punch-IsDefined (some s) inbox = stun_wait-IsDefined 50 inbox

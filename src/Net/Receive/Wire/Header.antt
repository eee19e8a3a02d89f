-- ===== src/Net/Receive/Wire/Header.antt =====
-- The receiver reads the routing header of both packets as it was put in.
use chess_rts.Base.{
  ℕ, zero, suc, ◌+◌, ◌*◌, ◌/◌, ◌≤◌, ◌<◌, ◌≡◌, refl, ap, ◌∙◌, List, [], ◌∷◌, arith, length,
  length-append, take, get_or,
}
use chess_rts.Net.Receive.{word, Header, header_of, ice_punch_size, lockstep_header}
use chess_rts.Net.Receive.Wire.{
  history_len, PlayerCommand, LockstepPacket, IcePunchPacket, put_word, put_array, put_command,
  put_tick, put_lockstep_header, put_lockstep, put_punch,
}

-- The number of values of a word of so many bytes.
abbrev pub values : ℕ → ℕ
values zero = 1
values (suc n) = 256 * values n

word-put_word : (n x : ℕ) → x < values n → word (put_word n x) ≡ x
word-put_word zero x lt = omega arith
word-put_word (suc n) x lt =
    let rest = word-put_word n (x / 256) (omega arith) in omega (arith, rest)

take-take : {A : Type 0} (k n : ℕ) (xs : List A) → k ≤ n → take k (take n xs) ≡ take k xs
take-take zero n xs le = refl
take-take (suc k) zero xs le = absurd (omega arith)
take-take (suc k) (suc n) [] le = refl
take-take (suc k) (suc n) (x ∷ xs) le = ap (λ l. x ∷ l) (take-take k n xs (omega arith))

get_or-take :
    {A : Type 0} (n : ℕ) (xs : List A) (i : ℕ) (d : A)
    → i < n
    → get_or (take n xs) i d ≡ get_or xs i d
get_or-take zero xs i d lt = absurd (omega arith)
get_or-take (suc n) [] i d lt = refl
get_or-take (suc n) (x ∷ xs) zero d lt = refl
get_or-take (suc n) (x ∷ xs) (suc i) d lt = get_or-take n xs i d (omega arith)

pub take_all : {A : Type 0} (n : ℕ) (xs : List A) → length xs ≤ n → take n xs ≡ xs
take_all zero [] le = refl
take_all zero (x ∷ xs) le = absurd (omega arith)
take_all (suc n) [] le = refl
take_all (suc n) (x ∷ xs) le = ap (λ l. x ∷ l) (take_all n xs (omega arith))

length-put_array :
    (put : ℕ → List ℕ) (k left i : ℕ)
    → ((j : ℕ) → length (put j) ≡ k)
    → length (put_array put left i) ≡ left * k
length-put_array put k zero i each = omega arith
length-put_array put k (suc left) i each = omega (
  arith,
  length-append (put i) (put_array put left (i + 1)),
  each i,
  length-put_array put k left (i + 1) each,
)

-- The sizes that the receiver goes by, and that the header asserts: a punch has 40 bytes, the
-- commands of a lockstep packet start at byte 60, and a command has 8 bytes, so that a whole lockstep
-- packet, with two commands for each of 60 ticks, has 1,020.
pub sizes_lem :
    (p : IcePunchPacket) (q : LockstepPacket) (c : PlayerCommand)
    → (length (put_punch p) ≡ ice_punch_size)
      × (length (put_lockstep_header q) ≡ lockstep_header)
      × (length (put_command c) ≡ 8)
      × (length (put_lockstep q) ≡ lockstep_header + history_len * (2 * 8))
unfolding put_punch put_lockstep
sizes_lem p q c = (
  refl,
  refl,
  refl,
  length-append (put_lockstep_header q) (put_array (put_tick q) history_len 0)
      ∙ ap (λ k. lockstep_header + k) (length-put_array (put_tick q) 16 history_len 0 (λ j. refl)),
)

header_of_eq :
    {token token' pid pid' : ℕ}
    → token ≡ token'
    → pid ≡ pid'
    → ◌≡◌ {A = Header} (record { token = token; pid = pid }) (record { token = token'; pid = pid' })
header_of_eq e q = rw (e, q) refl

-- The header is read off the first nine bytes.
pub header_of-take :
    (n : ℕ) (payload : List ℕ) → 9 ≤ n → header_of (take n payload) ≡ header_of payload
header_of-take n payload le =
    header_of_eq (ap word (take-take 8 n payload (omega arith)))
      (get_or-take n payload 8 0 (omega arith))

module _ (token pid : ℕ) (lt : token < values 8) (lt' : pid < values 1) where
  pub punch-header :
      (p : IcePunchPacket)
      → p.session_token ≡ token
      → p.player_id ≡ pid
      → header_of (put_punch p) ≡ record { token = token; pid = pid }
  unfolding put_punch
  punch-header p e q =
      header_of_eq (ap (λ x. word (put_word 8 x)) e ∙ word-put_word 8 token lt) (omega (arith, q))

  pub lockstep-header :
      (p : LockstepPacket)
      → p.session_token ≡ token
      → p.player_id ≡ pid
      → header_of (put_lockstep p) ≡ record { token = token; pid = pid }
  unfolding put_lockstep
  lockstep-header p e q =
      header_of_eq (ap (λ x. word (put_word 8 x)) e ∙ word-put_word 8 token lt) (omega (arith, q))

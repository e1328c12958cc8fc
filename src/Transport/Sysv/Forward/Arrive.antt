-- ===== src/Transport/Sysv/Forward/Arrive.antt =====
-- What happens to the bytes of a message that a queue hands to the receiving region
-- (sw/itc-common/src/itcTransportSysvMsgQueue.cc).
use itc_platform.Common.{
  ℕ, zero, suc, ◌+◌, ◌%◌, ◌^◌, ◌≤◌, ◌<◌, ◌≡◌, refl, ap, ◌∙◌, arith, inl, inr, true, some, List, [],
  ◌∷◌, ◌++◌, length, take, drop,
}
use itc_platform.Common.Family.{update_self}
use itc_platform.Common.Outcome.{done}
use itc_platform.Message.{Message, allocate, store, fresh_message, read32, write32}
use itc_platform.Message.Bytes.{encode, decode-encode, HasWords}
use itc_platform.Message.Laws.{IsWhole, fresh_message-IsWhole, allocate_lem}
use itc_platform.Mailbox.Laws.{waiting}
use itc_platform.Transport.Local
use itc_platform.Transport.Local.{Region, itc_ok}
use itc_platform.Transport.Local.Deliver.{IsRegion, send_active}
use itc_platform.Transport.Sysv.{flat_size, tx_frame}
use itc_platform.Transport.Sysv.Retry.{length-encode}
use itc_platform.Transport.Sysv.Forward.{
  memcpy, copy_message, forward_message, parse_and_forward_message,
}

take-all {ℓ} : {A : Type ℓ} (n : ℕ) (xs : List A) → length xs ≤ n → take n xs ≡ xs
take-all zero [] h = refl
take-all (suc n) [] h = refl
take-all zero (x ∷ xs) h = absurd (omega arith)
take-all (suc n) (x ∷ xs) h = ap (λ ys. x ∷ ys) (take-all n xs (omega arith))

drop-all {ℓ} : {A : Type ℓ} (n : ℕ) (xs : List A) → length xs ≤ n → drop n xs ≡ []
drop-all zero [] h = refl
drop-all (suc n) [] h = refl
drop-all zero (x ∷ xs) h = absurd (omega arith)
drop-all (suc n) (x ∷ xs) h = drop-all n xs (omega arith)

append-nil {ℓ} : {A : Type ℓ} (xs : List A) → xs ++ [] ≡ xs
append-nil [] = refl
append-nil (x ∷ xs) = ap (λ ys. x ∷ ys) (append-nil xs)

-- A copy over a block of the same length.
memcpy_all : (dst src : List ℕ) (n : ℕ) → length src ≡ n → length dst ≡ n → memcpy dst src n ≡ src
memcpy_all dst src n hs hd =
    rw (take-all n src (omega arith), drop-all n dst (omega arith)) (append-nil src)

module _ (m : Message) (whole : IsWhole m) (words : HasWords m) (small : m.size + 17 < 2 ^ 32) where
  flat_size_lem : flat_size m.size ≡ m.size + 17
  flat_size_lem = omega arith

  tx_frame_lem : tx_frame m ≡ write32 1 ++ (write32 0 ++ encode m)
  unfolding tx_frame
  tx_frame_lem =
      ground (arith, take-all (flat_size m.size) (encode m) (omega (arith, length-encode m whole)))

  pub length-tx_frame : length (tx_frame m) ≡ m.size + 25
  length-tx_frame = ap length tx_frame_lem ∙ omega (arith, length-encode m whole)

  copy_message_lem :
      (junk : ℕ → ℕ) (msgno : ℕ)
      → 4 ≤ m.size
      → copy_message (fresh_message junk msgno m.size) m ≡ some (record m { flags = 0 })
  unfolding copy_message encode fresh_message
  copy_message_lem junk msgno h =
      let new = fresh_message junk msgno m.size in
      let new_whole : IsWhole new = fresh_message-IsWhole junk msgno m.size h (omega arith) in
      ground (
        arith,
        memcpy_all (encode new) (encode m) (flat_size m.size) (omega (arith, length-encode m whole))
            (omega (arith, length-encode new new_whole)),
        decode-encode m words,
      )

  -- The body of a message starts with its number.
  body_msgno : 4 ≤ m.size → (msgno : ℕ) × (rest : List ℕ) × (read32 m.body ≡ some (msgno, rest))
  body_msgno h = go m.body (omega (arith, whole.room))
    where
      go :
          (xs : List ℕ)
          → 4 ≤ length xs
          → (msgno : ℕ) × (rest : List ℕ) × (read32 xs ≡ some (msgno, rest))
      go (a ∷ b ∷ c ∷ d ∷ xs) l = (_, _, refl)
      go (a ∷ b ∷ c ∷ []) l = absurd (omega arith)
      go (a ∷ b ∷ []) l = absurd (omega arith)
      go (a ∷ []) l = absurd (omega arith)
      go [] l = absurd (omega arith)

  -- The region with the new message in memory.
  abbrev arrived : (ℕ → ℕ) → Region → ℕ → Region
  arrived junk r msgno = record r {
    heap = store (allocate junk msgno m.size r.heap).1 r.heap.next (record m { flags = 0 });
  }

  forward_message_lem :
      (junk : ℕ → ℕ) (r r' : Region)
      → 4 ≤ m.size
      → (msgno : ℕ) (rest : List ℕ) → read32 m.body ≡ some (msgno, rest)
      → Local.send r.heap.next (arrived junk r msgno) ≡ done (itc_ok, r')
      → forward_message junk m r ≡ done (true, r')
  unfolding forward_message
  forward_message_lem junk r r' h msgno rest e sent =
      ground (arith, allocate_lem junk msgno m.size r.heap h, copy_message_lem junk msgno h)

  parse_lem :
      (junk : ℕ → ℕ) (r : Region)
      → parse_and_forward_message junk (tx_frame m) (length (tx_frame m)) r
        ≡ forward_message junk m r
  unfolding parse_and_forward_message
  parse_lem junk r =
      ground (arith, tx_frame_lem, length-encode m whole, decode-encode m words, whole.ended)

  -- The bytes of a message arrive: a new message, equal to the one that was sent but for its flags, which are clear, stands
  -- behind those that wait, and the call answers true. The message is whole, with its fields within
  -- their widths, of four bytes or more, and its flat size m.size + 17 fits in 32 bits; it is for an
  -- active mailbox with room in a region whose mailboxes are well formed, and the heap gives no nullptr.
  pub forward_arrives :
      (junk : ℕ → ℕ) (r : Region)
      → 4 ≤ m.size
      → 0 < r.heap.next
      → IsRegion r
      → m.receiver % 2 ^ 16 < 1024
      → (r.mailboxes (m.receiver % 2 ^ 16)).is_active ≡ true
      → length (waiting (r.mailboxes (m.receiver % 2 ^ 16))) < 1024
      → (r' : Region) × (parse_and_forward_message junk (tx_frame m) (length (tx_frame m)) r
          ≡ done (true, r'))
        × (waiting (r'.mailboxes (m.receiver % 2 ^ 16))
            ≡ waiting (r.mailboxes (m.receiver % 2 ^ 16)) ++ (r.heap.next ∷ []))
        × (r'.heap.cell r.heap.next ≡ some (record m { flags = 0 }))
        × IsRegion r'
  unfolding parse_and_forward_message forward_message
  forward_arrives junk r h next ok within on room =
      let (msgno, rest, e) = body_msgno h in
      let live : (arrived junk r msgno).heap.cell r.heap.next ≡ some (record m { flags = 0 }) =
        update_self (allocate junk msgno m.size r.heap).1.cell r.heap.next
          (some (record m { flags = 0 })) in
      elim (send_active r.heap.next _ (arrived junk r msgno) live (λ z. absurd (omega arith)) ok
        within on) [
          | inl (full, _) ↦ absurd (omega arith)
          | inr (r', sent, added, _, same, ok') ↦ (
            r',
            parse_lem junk r ∙ forward_message_lem junk r r' h msgno rest e sent,
            added,
            ap (λ h. h.cell r.heap.next) same ∙ live,
            ok',
          )
        ]

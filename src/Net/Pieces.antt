-- ===== src/Net/Pieces.antt =====
-- The receiving loop on a stream socket: it puts the pieces together.
use mathlib.Core.List.{append_assoc}
use rtmb.Base.Int.{pos_part}
use rtmb.Net.Stream.{Incoming, Arrival, peer, arrival, interruption}
use rtmb.Net.{on_answer, Received, receive, Receipt, Side, Network, store, overwrite}
use rtmb.Base.{
  false, returns, ltb→lt, ◌-◌, ltb, Bool-cases, lt→ltb, inr, inl, Returns-map, Run, length-append,
  Returns, ◌+◌, ◌∙◌, sym, ◌<◌, ap, ok, arith, ◌≤◌, ◌≡◌, ◌++◌, length, ℕ, List, suc, zero, refl, [],
  ◌∷◌,
}

overwrite-append :
    (bs hole back : List ℕ)
    → length hole ≡ length bs
    → overwrite (hole ++ back) bs ≡ ok (bs ++ back)
unfolding overwrite
overwrite-append [] [] back h = refl
overwrite-append [] (x ∷ hole) back h = absurd (omega arith)
overwrite-append (b ∷ bs) [] back h = absurd (omega arith)
overwrite-append (b ∷ bs) (x ∷ hole) back h = rw (overwrite-append bs hole back (omega arith)) refl

store-append :
    (front bs hole back : List ℕ)
    → length hole ≡ length bs
    → store (length front) bs (front ++ hole ++ back) ≡ ok (front ++ bs ++ back)
unfolding store
store-append [] bs hole back h = overwrite-append bs hole back h
store-append (x ∷ front) bs hole back h = rw (store-append front bs hole back h) refl

-- A list that begins with `bs` and with the shorter `piece`.
record Cut (piece rest bs tail : List ℕ) : Type 0 where
  after : List ℕ
  whole : bs ≡ piece ++ after
  remainder : rest ≡ after ++ tail

cut :
    (piece rest bs tail : List ℕ)
    → piece ++ rest ≡ bs ++ tail
    → length piece ≤ length bs
    → Cut piece rest bs tail
cut [] rest bs tail e h = record { after = bs; whole = refl; remainder = e }
cut (x ∷ piece) rest [] tail e h = absurd (omega arith)
cut (x ∷ piece) rest (b ∷ bs) tail e h =
    let same_head : x ≡ b = cc in
    let same_tail : piece ++ rest ≡ bs ++ tail = cc in
    let c = cut piece rest bs tail same_tail (omega arith) in
    record {
      after = c.after;
      whole = ap (λ y. y ∷ bs) (sym same_head) ∙ ap (◌∷◌ x) c.whole;
      remainder = c.remainder;
    }

-- The first items of a list, as many as another has.
record Parted (n : ℕ) (hole : List ℕ) : Type 0 where
  first : List ℕ
  last : List ℕ
  joined : hole ≡ first ++ last
  long : length first ≡ n

part : (n : ℕ) (hole : List ℕ) → n ≤ length hole → Parted n hole
part zero hole h = record { first = []; last = hole; joined = refl; long = refl }
part (suc n) [] h = absurd (omega arith)
part (suc n) (x ∷ hole) h =
    let p = part n hole (omega arith) in
    record {
      first = x ∷ p.first;
      last = p.last;
      joined = ap (◌∷◌ x) p.joined;
      long = ap suc p.long;
    }

stored_piece :
    (at : ℕ) (front bs first last back buffer : List ℕ)
    → at ≡ length front
    → buffer ≡ front ++ (first ++ last) ++ back
    → length first ≡ length bs
    → store at bs buffer ≡ ok (front ++ bs ++ last ++ back)
stored_piece at front bs first last back buffer e e' h =
    ap (λ n. store n bs buffer) e
    ∙ ap (store (length front) bs) (
        e'
        ∙ ap (λ l. l ++ back) (sym (append_assoc front first last))
        ∙ append_assoc (front ++ first) last back)
    ∙ store-append front bs first (last ++ back) h
    ∙ ap ok (sym (append_assoc (front ++ bs) last back))

ltb-false_le : (a b : ℕ) → ltb a b ≡ false → a ≤ b → a ≡ b
ltb-false_le a b h k = ground arith

length_zero : (l : List ℕ) → length l ≡ 0 → l ≡ []
length_zero [] h = refl
length_zero (x ∷ l) h = absurd (omega arith)

settled :
    (front got last after back : List ℕ)
    → last ≡ []
    → after ≡ []
    → front ++ got ++ last ++ back ≡ front ++ got ++ after ++ back
settled front got last after back e e' = ap (λ l. front ++ got ++ l ++ back) (e ∙ sym e')

regroup :
    (front got after back bs : List ℕ)
    → bs ≡ got ++ after
    → front ++ bs ++ back ≡ front ++ got ++ after ++ back
regroup front got after back bs e =
    ap (λ l. front ++ l ++ back) e ∙ ap (λ l. l ++ back) (sym (append_assoc front got after))

module _ {W : Type 0} (net : Network W) (incoming : Incoming net) where
  open incoming use {pending, signals}

  -- What the loop leaves, of `bs` and what follows them on the way, with `kept` on the way to the
  -- peer and at most `limit` signals left.
  pub record Arrived (side : Side) (buffer : List ℕ) (rest kept : List ℕ) (limit : ℕ)
      (e : Receipt W) : Type 0 where
    pub received : 0 < pos_part e.ret
    pub stored : e.buffer ≡ buffer
    pub still_on_way : pending side e.world ≡ rest
    pub untouched : pending (peer side) e.world ≡ kept
    pub quieter : signals e.world ≤ limit

  -- That the loop, or the rest of it, receives all of `bs`: `at` bytes of the buffer stand before
  -- the place, and the `n` bytes after it are to be replaced.
  abbrev Works : (ℕ → ℕ → List ℕ → W → Run (Receipt W)) → Side → ℕ → Type 0
  Works more side fuel =
      (at n : ℕ) (buffer whole front hole back bs rest : List ℕ) (w : W)
      → at ≡ length front
      → n ≡ length bs
      → buffer ≡ front ++ hole ++ back
      → whole ≡ front ++ bs ++ back
      → 0 < n
      → length hole ≡ n
      → pending side w ≡ bs ++ rest
      → signals w + n ≤ fuel
      → Returns (Arrived side whole rest (pending (peer side) w) (signals w)) (more at n buffer w)

  Arrived-later :
      (side : Side) (whole rest : List ℕ) (w w' : W)
      → pending (peer side) w' ≡ pending (peer side) w
      → signals w' ≤ signals w
      → (e : Receipt W) → Arrived side whole rest (pending (peer side) w') (signals w') e
      → Arrived side whole rest (pending (peer side) w) (signals w) e
  Arrived-later side whole rest w w' same fewer e a = record {
    received = a.received;
    stored = a.stored;
    still_on_way = a.still_on_way;
    untouched = a.untouched ∙ same;
    quieter = omega (arith, a.quieter);
  }

  on_answer-Works :
      (more : ℕ → ℕ → List ℕ → W → Run (Receipt W)) (side : Side) (fuel : ℕ)
      → Works more side fuel
      → (at n : ℕ) (buffer whole front hole back bs rest : List ℕ) (w : W) (answer : Received × W)
      → Arrival pending signals side n w answer
      → at ≡ length front
      → n ≡ length bs
      → buffer ≡ front ++ hole ++ back
      → whole ≡ front ++ bs ++ back
      → 0 < n
      → length hole ≡ n
      → pending side w ≡ bs ++ rest
      → signals w + n ≤ suc fuel
      → Returns
          (Arrived side whole rest (pending (peer side) w) (signals w))
          (on_answer net more at n buffer answer)
  unfolding on_answer
  on_answer-Works more side fuel works at n buffer whole front hole back bs rest w answer
        (interruption w' same fewer) e1 e2 e3 e4 h e5 e6 enough =
      Returns-map
        (works at n buffer whole front hole back bs rest w' e1 e2 e3 e4 h e5 (same side ∙ e6)
          (omega arith))
        (Arrived-later side whole rest w w' (same (peer side)) (omega arith))
  on_answer-Works more side fuel works at n buffer whole front hole back bs rest w answer
        (arrival got w' some_bytes small arrives same fewer) e1 e2 e3 e4 h e5 e6 enough =
      let c = cut got (pending side w') bs rest (sym arrives ∙ e6) (omega arith) in
      let p = part (length got) hole (omega arith) in
      let together : length bs ≡ length got + length c.after =
        ap length c.whole ∙ length-append got c.after in
      let parted : length hole ≡ length p.first + length p.last =
        ap length p.joined ∙ length-append p.first p.last in
      rw
        (
          stored_piece at front got p.first p.last back buffer e1
              (e3 ∙ ap (λ l. front ++ l ++ back) p.joined) p.long,
          lt→ltb 0 (length got) some_bytes,
        )
        (elim (Bool-cases (ltb (length got) n)) [
          | inl less ↦ rw less (
              Returns-map
                (works (at + length got) (n - length got) (front ++ got ++ p.last ++ back) whole
                  (front ++ got) p.last back c.after rest w'
                  (ap (λ k. k + length got) e1 ∙ sym (length-append front got)) (omega arith) refl
                  (e4 ∙ regroup front got c.after back bs c.whole)
                  (omega (arith, ltb→lt (length got) n less)) (omega (arith, p.long)) c.remainder
                  (omega arith))
                (Arrived-later side whole rest w w' same fewer))
          | inr all ↦ rw all (
              let full : length got ≡ n = ltb-false_le (length got) n all small in
              let none_after : c.after ≡ [] = length_zero c.after (omega arith) in
              let none_last : p.last ≡ [] = length_zero p.last (omega (arith, p.long)) in
              returns (record {
                received = some_bytes;
                stored =
                    settled front got p.last c.after back none_last none_after
                    ∙ sym (e4 ∙ regroup front got c.after back bs c.whole);
                still_on_way = c.remainder ∙ ap (λ l. l ++ rest) none_after;
                untouched = same;
                quieter = fewer;
              }))
        ])

  pub receive-Works : (fuel : ℕ) (side : Side) → Works (receive net fuel side) side fuel
  unfolding receive
  receive-Works zero side at n buffer whole front hole back bs rest w e1 e2 e3 e4 h e5 e6 enough =
      absurd (omega arith)
  receive-Works (suc fuel) side at n buffer whole front hole back bs rest w e1 e2 e3 e4 h e5 e6
        enough =
      on_answer-Works (receive net fuel side) side fuel (receive-Works fuel side) at n buffer whole
        front hole back bs rest w (net.recv side n w)
        (incoming.recv_law side n w h (omega (arith, ap length e6, length-append bs rest))) e1 e2 e3
        e4 h e5 e6 enough

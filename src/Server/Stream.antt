-- ===== src/Server/Stream.antt =====
-- `SigmaStudioRequestHandler.read` of sigmadsp/sigmastudio/server.py against the stream of bytes
-- that the segments make up.
use sigmadsp.Prelude.{
  ℕ, zero, suc, ◌+◌, ◌-◌, ◌≤◌, ◌<◌, ◌≡◌, refl, ap, sym, ◌∙◌, false, List, [], ◌∷◌, ◌++◌, append-nil,
  append_assoc, arith, length, drop, concat, length-append, length-drop, ltb, lt→ltb, pos→not_zero,
}
use sigmadsp.Prelude.Result.{Result, ok, err, connection_error}
use sigmadsp.Prelude.Exec.{Exec, lift, ◌>>=◌}
use sigmadsp.Server.Socket.{Connection, recv_segments, read_loop, read}
use sigmadsp.Server.Segments.{AllArrive, Received, recv_segments-Received, split_off, left_over}

-- A call that returned `a`, left `ys` of the stream, and changed nothing else.
pub record Takes {A : Type 0} (m : Exec Connection A) (s : Connection) (a : A) (ys : List ℕ)
    : Type 0 where
  pub segments : List (List ℕ)
  pub returns : m s ≡ (ok a, record s { segments = segments })
  pub left : concat segments ≡ ys
  pub arrive : AllArrive segments

module _ (s : Connection) where
  -- The stream with the segments replaced.
  abbrev at : List (List ℕ) → Connection
  at segments = record s { segments = segments }

  loop_step :
      (fuel amount : ℕ) (bytes : List ℕ) (segments : List (List ℕ))
      → length bytes < amount
      → (let (r, rest) = recv_segments (amount - length bytes) segments in 0 < length r)
      → read_loop (suc fuel) amount bytes (at segments) ≡ (
          let (r, rest) = recv_segments (amount - length bytes) segments in
          read_loop fuel amount (bytes ++ r) (at rest))
  unfolding read_loop
  loop_step fuel amount bytes segments h p = rw (lt→ltb _ _ h) (rw (pos→not_zero _ p))

  loop_end :
      (fuel amount : ℕ) (bytes : List ℕ) (segments : List (List ℕ))
      → length bytes < amount
      → (recv_segments (amount - length bytes) segments) ≡ ([], [])
      → read_loop (suc fuel) amount bytes (at segments)
        ≡ (err connection_error, record s { segments = []; is_open = false; is_writable = false })
  unfolding read_loop
  loop_end fuel amount bytes segments h e = rw (lt→ltb _ _ h) (rw e)

  loop_done :
      (fuel amount : ℕ) (bytes : List ℕ) (segments : List (List ℕ))
      → length bytes ≡ amount
      → read_loop (suc fuel) amount bytes (at segments) ≡ (ok (bytes ++ []), at segments)
  unfolding read_loop
  loop_done fuel amount bytes segments h =
      let enough : ltb (length bytes) amount ≡ false = ground arith in rw (enough, append-nil)

  abbrev returned : List (List ℕ) → List ℕ → Result (List ℕ) × Connection
  returned segments bytes = (ok bytes, at segments)

  -- The loop, at a stream that holds the bytes `xs` that are still missing.
  loop_Takes :
      (fuel amount : ℕ) (bytes xs ys : List ℕ) (segments : List (List ℕ))
      → length xs < fuel
      → length bytes + length xs ≡ amount
      → AllArrive segments
      → concat segments ≡ xs ++ ys
      → (segments' : List (List ℕ)) × (read_loop fuel amount bytes (at segments)
          ≡ (ok (bytes ++ xs), at segments'))
        × (concat segments' ≡ ys)
        × AllArrive segments'
  loop_Takes zero amount bytes xs ys segments h e arrive stream = absurd (omega arith)
  loop_Takes (suc fuel) amount bytes [] ys segments h e arrive stream =
      (segments, loop_done fuel amount bytes segments (omega arith), stream, arrive)
  loop_Takes (suc fuel) amount bytes (x ∷ xs) ys segments h e arrive stream =
      let n = amount - length bytes in
      let got = recv_segments n segments in
      let took : Received n segments got = recv_segments-Received n segments (omega arith) arrive in
      let some_left : 0 < length (concat segments) =
        omega (arith, ap (length {A = ℕ}) stream, length-append (x ∷ xs) ys) in
      let moved : 0 < length got.0 = took.progress some_left in
      let whole : got.0 ++ concat got.1 ≡ (x ∷ xs) ++ ys = took.whole ∙ stream in
      let within : length got.0 ≤ length (x ∷ xs) = omega (arith, took.within) in
      let split = split_off (x ∷ xs) ys got.0 (concat got.1) whole within in
      let left = left_over (x ∷ xs) ys got.0 (concat got.1) whole within in
      let rest : List ℕ = drop (length got.0) (x ∷ xs) in
      let (segments', run, stream', arrive') =
        loop_Takes fuel amount (bytes ++ got.0) rest ys got.1
          (omega (arith, length-drop (length got.0) (x ∷ xs)))
          (omega (arith, length-drop (length got.0) (x ∷ xs), length-append bytes got.0, moved))
          took.arrive left in
      (
        segments',
        loop_step fuel amount bytes segments (omega arith) moved
            ∙ run
            ∙ ap (returned segments')
                (append_assoc bytes got.0 rest ∙ ap (λ (l : List ℕ). bytes ++ l) (sym split)),
        stream',
        arrive',
      )

  -- A read off a stream that holds `xs`, however it is cut, returns `xs` and leaves what follows.
  pub read-Takes :
      (xs ys : List ℕ)
      → AllArrive s.segments
      → concat s.segments ≡ xs ++ ys
      → Takes (read (length xs)) s xs ys
  unfolding read
  read-Takes xs ys arrive stream =
      let (segments, run, left, arrive') =
        loop_Takes (suc (length xs)) (length xs) [] xs ys s.segments (omega arith) (omega arith)
          arrive stream in
      record { segments = segments; returns = run; left = left; arrive = arrive' }

  loop_short :
      (fuel amount : ℕ) (bytes : List ℕ) (segments : List (List ℕ))
      → length (concat segments) < fuel
      → length bytes + length (concat segments) < amount
      → AllArrive segments
      → read_loop fuel amount bytes (at segments)
        ≡ (err connection_error, record s { segments = []; is_open = false; is_writable = false })
  loop_short zero amount bytes segments h short arrive = absurd (omega arith)
  loop_short (suc fuel) amount bytes [] h short arrive =
      loop_end fuel amount bytes [] (omega arith) (unfold recv_segments in refl)
  loop_short (suc fuel) amount bytes (segment ∷ segments) h short arrive =
      let n = amount - length bytes in
      let got = recv_segments n (segment ∷ segments) in
      let took : Received n (segment ∷ segments) got =
        recv_segments-Received n (segment ∷ segments) (omega arith) arrive in
      let moved : 0 < length got.0 =
        took.progress (omega (arith, length-append segment (concat segments), arrive.0)) in
      let sizes : length got.0 + length (concat got.1) ≡ length (concat (segment ∷ segments)) =
        sym (length-append got.0 (concat got.1)) ∙ ap (length {A = ℕ}) took.whole in
      loop_step fuel amount bytes (segment ∷ segments) (omega arith) moved
      ∙ loop_short fuel amount (bytes ++ got.0) got.1 (omega (arith, sizes, moved))
          (omega (arith, sizes, length-append bytes got.0)) took.arrive

  -- A read of more than the stream holds raises a connection error, and the socket is closed.
  pub read_short :
      (amount : ℕ)
      → AllArrive s.segments
      → length (concat s.segments) < amount
      → read amount s
        ≡ (err connection_error, record s { segments = []; is_open = false; is_writable = false })
  unfolding read
  read_short amount arrive short =
      loop_short (suc amount) amount [] s.segments (omega arith) (omega arith) arrive

module _ {A B : Type 0} (m : Exec Connection A) (f : A → Exec Connection B) (s : Connection) where
  -- Two calls in a row.
  pub Takes-bind :
      (a : A) (b : B) (ys zs : List ℕ)
      → Takes m s a ys
      → ((segments : List (List ℕ))
          → AllArrive segments
          → concat segments ≡ ys
          → Takes (f a) (record s { segments = segments }) b zs)
      → Takes (m >>= f) s b zs
  Takes-bind a b ys zs first then_rest =
      let second : Takes (f a) (record s { segments = first.segments }) b zs =
        then_rest first.segments first.arrive first.left in
      record {
        segments = second.segments;
        returns = rw first.returns second.returns;
        left = second.left;
        arrive = second.arrive;
      }

module _ {A : Type 0} (r : Result A) (s : Connection) where
  -- A call that does not look at the connection.
  pub Takes-lift :
      (a : A) (ys : List ℕ)
      → r ≡ ok a
      → AllArrive s.segments
      → concat s.segments ≡ ys
      → Takes (lift r) s a ys
  Takes-lift a ys e arrive left = record {
    segments = s.segments;
    returns = rw e;
    left = left;
    arrive = arrive;
  }

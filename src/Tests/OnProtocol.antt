-- ===== src/Tests/OnProtocol.antt =====
-- The theorems on sigmadsp/protocols at concrete hardware.
use sigmadsp.Prelude.{
  ℕ, ◌+◌, ◌⊎◌, ◌≡◌, refl, some, List, [], ◌∷◌, ◌++◌, arith, take, length, Bool, true, false,
}
use sigmadsp.Prelude.Result.{ok}
use sigmadsp.Prelude.Exec.{Exec}
use sigmadsp.Protocol.{Chunk, Hardware, writable_data}
use sigmadsp.Protocol.Chunks.{Tiles, writable_data-Tiles}
use sigmadsp.Protocol.Spi.{SpiDev}
use sigmadsp.Protocol.I2c.{SmBus}
use sigmadsp.Protocol.Queues.{Request, write, read, served_write, served_read, put}
use sigmadsp.Protocol.Queues.Alone
use sigmadsp.Protocol.Queues.Progress
use sigmadsp.Protocol.Queues.Alone.{run_directly, alone-run_directly, Caller}
use sigmadsp.Protocol.Queues.Shared.{Callers, quiet, swapped_answers}
use sigmadsp.Protocol.Queues.Shared

-- Hardware that keeps the bytes last written.
abbrev latch_write : ℕ → List ℕ → Exec (List ℕ) (Unit {0})
latch_write address bytes _ = (ok tt, bytes)

abbrev latch_read : ℕ → ℕ → Exec (List ℕ) (List ℕ)
latch_read address length d = (ok (take length d), d)

abbrev latch : Hardware
latch = record { Device = List ℕ; write_hw = latch_write; read_hw = latch_read }

abbrev program : List Request
program = write 1 (5 ∷ []) ∷ read 1 1 ∷ []

abbrev caller :
    List Request → List (List ℕ) → List ℕ → List Request → Bool → List (List ℕ) → Caller latch
caller transmit receive device left waiting results = record {
  bus = record { transmit_queue = transmit; receive_queue = receive; device = device };
  program = left;
  waiting = waiting;
  results = results;
}

abbrev finished : Caller latch
finished = caller [] [] (5 ∷ []) [] false ((5 ∷ []) ∷ [])

run : Alone.Reach latch (Alone.start latch program []) finished
unfolding put
run =
    let s1 = caller (write 1 (5 ∷ []) ∷ []) [] [] (read 1 1 ∷ []) false [] in
    let s2 = caller program [] [] [] true [] in
    let s3 = caller (read 1 1 ∷ []) [] (5 ∷ []) [] true [] in
    let s4 = caller [] ((5 ∷ []) ∷ []) (5 ∷ []) [] true [] in
    let r1 : Alone.Reach latch (Alone.start latch program []) s1 =
      Alone.next Alone.here (Alone.call_write 1 (5 ∷ []) (read 1 1 ∷ []) refl refl refl) in
    let r2 : Alone.Reach latch (Alone.start latch program []) s2 =
      Alone.next r1 (Alone.call_read 1 1 [] refl refl refl) in
    let r3 : Alone.Reach latch (Alone.start latch program []) s3 =
      Alone.next r2 (
        Alone.serve s3.bus (served_write 1 (5 ∷ []) (read 1 1 ∷ []) (5 ∷ []) refl refl refl)
          refl) in
    let r4 : Alone.Reach latch (Alone.start latch program []) s4 =
      Alone.next r3
        (Alone.serve s4.bus (served_read 1 1 (5 ∷ []) [] (5 ∷ []) refl refl refl) refl) in
    Alone.next r4 (Alone.return_read (5 ∷ []) [] refl refl refl)

alone-run_directly_example : run_directly latch program [] ≡ (ok ((5 ∷ []) ∷ []), 5 ∷ [])
alone-run_directly_example = alone-run_directly latch program [] finished run refl refl refl

latch-Succeeds : Progress.Succeeds latch
latch-Succeeds = record {
  writes = λ address bytes d. (bytes, refl);
  reads = λ address length d. (take length d, d, refl);
}

alone-IsFinished_example :
    (Progress.steps latch run + Progress.work latch finished ≡ Progress.cost program)
    × ((Progress.IsFinished latch finished
          × (run_directly latch program [] ≡ (ok ((5 ∷ []) ∷ []), 5 ∷ [])))
        ⊎ Progress.CanStep latch finished)
alone-IsFinished_example = Progress.alone-IsFinished latch latch-Succeeds program [] finished run

-- Registers that answer with their own address.
abbrev echo_read : ℕ → ℕ → Exec (List ℕ) (List ℕ)
echo_read address length d = (ok (address ∷ []), d)

abbrev echo : Hardware
echo = record { Device = List ℕ; write_hw = latch_write; read_hw = echo_read }

swapped_answers_example :
    (c : Callers echo) × Shared.Reach echo (quiet echo []) c
    × (c.returned ≡ (1, read 9 1, 8 ∷ []) ∷ (0, read 8 1, 9 ∷ []) ∷ [])
swapped_answers_example = swapped_answers echo [] [] [] 8 1 9 1 (8 ∷ []) (9 ∷ []) refl refl

writable_data-Tiles_example :
    (chunks : List Chunk) × (writable_data 100 (1 ∷ 2 ∷ 3 ∷ 4 ∷ 5 ∷ []) 1 ≡ some chunks)
    × Tiles 1 100 (1 ∷ 2 ∷ 3 ∷ 4 ∷ 5 ∷ []) chunks
writable_data-Tiles_example = writable_data-Tiles 1 (omega arith) 100 (1 ∷ 2 ∷ 3 ∷ 4 ∷ 5 ∷ [])

-- An interface that keeps what it sent.
abbrev keep : List ℕ → Exec (List (List ℕ)) (Unit {0})
keep frame sent = (ok tt, sent ++ frame ∷ [])

abbrev answer : List ℕ → Exec (List (List ℕ)) (List ℕ)
answer frame sent = (ok frame, sent)

abbrev pub spi_log : SpiDev
spi_log = record { Device = List (List ℕ); writebytes = keep; xfer = answer }

abbrev i2c_answer : List ℕ → ℕ → Exec (List (List ℕ)) (List ℕ)
i2c_answer message length sent = (ok (take length message), sent)

abbrev pub i2c_log : SmBus
i2c_log = record { Device = List (List ℕ); rdwr_write = keep; rdwr_read = i2c_answer }

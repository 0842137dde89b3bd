-- ===== src/Fs/Pipe/Tests.antt =====
-- Runs of the pipes.
use kazuos.Prelude.{List, [], ◌∷◌, ◌++◌, ◌≡◌, refl, some, none, arith, true}
use kazuos.Fs.Pipe.{PipeState, Pipes, pipe_at, writer_closed}
use kazuos.Fs.Pipe.Fifo.{
  Request, writes, reads, reads_raw, closes_writer, opens, run, sent, received, received-sent,
}

abbrev table : Pipes
table =
    some (record { content = 9 ∷ []; write_refs = 1; read_refs = 1 })
    ∷ none
    ∷ some (record { content = []; write_refs = 1; read_refs = 0 })
    ∷ []

-- The pipe 0 is read in two parts and its writer leaves before the second; pipe 2 has no reader.
abbrev requests : List Request
requests =
    writes 0 (1 ∷ 2 ∷ [])
    ∷ reads_raw 0 1
    ∷ reads 0 1
    ∷ opens
    ∷ writes 2 (7 ∷ [])
    ∷ closes_writer 0
    ∷ reads 0 5
    ∷ []

after_run :
    (received 0 requests table ≡ 9 ∷ 1 ∷ 2 ∷ []) × (writer_closed 0 (run requests table) ≡ true)
unfolding run received writer_closed
after_run = (refl, refl)

received-sent_example :
    (q : PipeState) × (pipe_at 0 (run requests table) ≡ some q)
    × (received 0 requests table ++ q.content ≡ 9 ∷ [] ++ sent 0 requests)
received-sent_example =
    received-sent 0 requests table (record { content = 9 ∷ []; write_refs = 1; read_refs = 1 }) refl
      (omega arith) (omega arith) (refl, (refl, (refl, (refl, (refl, (refl, (refl, tt)))))))

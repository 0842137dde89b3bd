-- ===== src/Ipc/Tests.antt =====
-- Runs of the channels.
use kazuos.Prelude.{List, [], ◌∷◌, ◌≡◌, refl, arith}
use kazuos.Ipc.{RecvResult, try_recv}
use kazuos.Fs.Path.{bytes_eq}
use kazuos.Ipc.Bounds.{IsTable}
use kazuos.Ipc.History.{Request, opens, sends, receives, closes, run, run-IsTable}

abbrev requests : List Request
requests =
    opens (65 ∷ [])
    ∷ opens (66 ∷ [])
    ∷ receives 1 (0 ∷ 0 ∷ []) 7
    ∷ sends 1 (1 ∷ 2 ∷ 3 ∷ [])
    ∷ closes 2
    ∷ opens (67 ∷ [])
    ∷ []

-- The receiver gets the first two bytes of the message; the rest is lost.
two_bytes : (try_recv 1 (0 ∷ 0 ∷ []) 7 (run requests [])).0 ≡ RecvResult.ok 2
unfolding run try_recv bytes_eq
two_bytes = refl

run-IsTable_example : IsTable (run requests [])
run-IsTable_example = run-IsTable requests [] (omega arith, tt)

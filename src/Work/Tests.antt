-- ===== src/Work/Tests.antt =====
-- The loops on concrete answers.
use filth.Base.Text.{codes}
use filth.Base.{◌≡◌, some, [], ◌∷◌, arith}
use filth.Work.Read.{Pieces}
use filth.Work.Write.{Sent, sent, Written, wruntil, Progress, wruntil_lem}
use filth.Work.Write

-- two bytes go out, then the socket would block
wruntil_lem_example :
    (w : Written) × (wruntil 0 (sent 2 ∷ Write.failed 11 ∷ []) (codes "abcde") 5 ≡ some w)
    × Progress (codes "abcde") 5 w
wruntil_lem_example =
    wruntil_lem 0 11 (sent 2 ∷ []) (codes "abcde") 5 (omega arith) (omega arith)
      (omega arith, omega arith, tt) (omega arith)

abbrev two_pieces : Pieces
two_pieces = (b'a', codes "b") ∷ (b'c', []) ∷ []

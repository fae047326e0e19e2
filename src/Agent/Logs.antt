-- ===== src/Agent/Logs.antt =====
-- The log stream of server.rs `get_container_logs`, polled with the offset of the last response.
use containerd_cloudhypervis.Common.{
  ℕ, ◌+◌, ◌≤◌, ◌≡◌, refl, ap, List, [], ◌∷◌, ◌++◌, Text, arith, length, length-append, drop-append,
}
use Prim.Native.Nat.{max}
use containerd_cloudhypervis.Agent.Manager.{ContainerLogs}
use containerd_cloudhypervis.Agent.Server.{read_logs, from_offset}

-- The log after more output has come in.
unfoldable pub grow : Text → Text → ContainerLogs → ContainerLogs
grow out errs l = record l { stdout = l.stdout ++ out; stderr = l.stderr ++ errs }

-- A client polls after each growth, from the offset of the response before, and joins what it gets.
poll : ℕ → ContainerLogs → List (Text × Text) → Text
unfolding grow read_logs
poll offset l [] = []
poll offset l ((out, errs) ∷ gs) =
    let l' = grow out errs l in let r = read_logs offset l' in r.stdout ++ poll r.offset l' gs

-- All that the container writes to stdout.
abbrev written : List (Text × Text) → Text
written [] = []
written ((out, errs) ∷ gs) = out ++ written gs

-- Standard error is never ahead of standard output.
abbrev pub IsAhead : ContainerLogs → List (Text × Text) → Type 0
IsAhead l [] = Unit {0}
IsAhead l ((out, errs) ∷ gs) =
    (length (l.stderr ++ errs) ≤ length (l.stdout ++ out))
    × IsAhead (record { stdout = l.stdout ++ out; stderr = l.stderr ++ errs; eof = l.eof }) gs

from_offset-append : (xs ys : Text) → from_offset (length xs) (xs ++ ys) ≡ ys
from_offset-append xs [] = ground (arith, length-append xs [], drop-append xs [])
from_offset-append xs (y ∷ ys) = ground (arith, length-append xs (y ∷ ys), drop-append xs (y ∷ ys))

-- If standard error is never ahead of standard output, a client that polls loses and repeats no byte
-- of standard output, whatever the sizes of the reads.
poll-written :
    (l : ContainerLogs) (gs : List (Text × Text))
    → IsAhead l gs
    → poll (length l.stdout) l gs ≡ written gs
unfolding poll
poll-written l [] h = refl
poll-written l ((out, errs) ∷ gs) h =
    let longest : max (length (l.stdout ++ out)) (length (l.stderr ++ errs))
        ≡ length (l.stdout ++ out) =
      omega arith in
    rw (from_offset-append l.stdout out, longest)
      (ap (λ x. out ++ x) (unfold grow in poll-written (grow out errs l) gs h.1))

-- The two streams share one offset, the length of the longer: what is appended to standard error
-- while it stays behind standard output is never returned.
pub read_logs-loses_stderr :
    (l : ContainerLogs) (out errs : Text)
    → length l.stderr + length errs ≤ length l.stdout
    → let r = read_logs 0 l in (read_logs r.offset (grow out errs l)).stderr ≡ []
unfolding read_logs grow
read_logs-loses_stderr l out errs h = ground (arith, length-append l.stderr errs)

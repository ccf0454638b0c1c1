-- ===== src/PortAlloc.antt =====
-- pkg/portalloc/portalloc.go: the pool of RTP and RTCP ports. `used` holds only `true`, so that the
-- map is the list of its keys. `mu` makes each operation one step. Ports are numbers; a minimum that
-- is not positive is refused, and 0 stands for it.
pub mod Scan
pub mod Pool
pub mod Free
pub mod Bound
mod Tests
use liveforge.Base.{
  ℕ, zero, suc, ◌+◌, ◌-◌, ◌%◌, Bool, true, false, not, Option, none, some, List, [], ◌∷◌, ◌&&◌,
  ◌||◌, ltb, leb, ◌==◌, if◌then◌else◌,
}

-- `PortAllocator`
pub record PortAllocator : Type 0 where
  pub used : List ℕ
  pub min_port : ℕ
  pub max_port : ℕ

-- `New`: `none` is the error.
unfoldable pub new_allocator : ℕ → ℕ → Option PortAllocator
new_allocator min_port max_port =
    if ltb min_port 1 || ltb 65535 max_port
    then none
    else if ltb max_port min_port
    then none
    else some (record { used = []; min_port = min_port; max_port = max_port })

-- `pa.used[p]`
abbrev pub is_used : ℕ → List ℕ → Bool
is_used p [] = false
is_used p (q ∷ used) = q == p || is_used p used

-- `delete(pa.used, port)`
abbrev pub delete_port : ℕ → List ℕ → List ℕ
delete_port p [] = []
delete_port p (q ∷ used) = let rest = delete_port p used in if q == p then rest else q ∷ rest

-- `for p := start; p <= last; p += step`, which returns the first port that passes the test. The
-- fuel bounds the number of rounds.
unfoldable pub scan : (ℕ → Bool) → ℕ → ℕ → ℕ → ℕ → Option ℕ
scan test step last zero p = none
scan test step last (suc fuel) p =
    let later = scan test step last fuel (p + step) in
    if leb p last then if test p then some p else later else none

-- `firstEvenPort`
unfoldable pub first_even_port : PortAllocator → ℕ
first_even_port pa = if pa.min_port % 2 == 0 then pa.min_port else pa.min_port + 1

abbrev pub mark : ℕ → PortAllocator → PortAllocator
mark p pa = record pa { used = p ∷ pa.used }

-- No round comes after the highest port.
abbrev pub rounds : PortAllocator → ℕ
rounds pa = pa.max_port + 1

-- `Allocate`: `none` is the error, which leaves the pool as it is.
unfoldable pub allocate : PortAllocator → Option (ℕ × PortAllocator)
allocate pa = elim (scan (λ p. not (is_used p pa.used)) 1 pa.max_port (rounds pa) pa.min_port) [
  | none ↦ none
  | some p ↦ some (p, mark p pa)
]

-- The test of both pair loops.
abbrev pub is_free_pair : PortAllocator → ℕ → Bool
is_free_pair pa p = not (is_used p pa.used) && not (is_used (p + 1) pa.used)

-- `AllocatePair`, with the RTP port; the RTCP port is the next one.
unfoldable pub allocate_pair : PortAllocator → Option ((ℕ × ℕ) × PortAllocator)
allocate_pair pa =
    elim (scan (is_free_pair pa) 2 (pa.max_port - 1) (rounds pa) (first_even_port pa)) [
      | none ↦ none
      | some p ↦ some ((p, p + 1), mark (p + 1) (mark p pa))
    ]

-- What `AllocateBoundUDPPair` returns: a pair, or which error.
pub data BoundResult : Type 0 where
  bound_pair : ℕ → ℕ → BoundResult
  not_bindable not_available : BoundResult

-- What it leaves: the result, the pool, and the ports of the sockets that it has opened and not closed.
pub record BoundState : Type 0 where
  pub result : BoundResult
  pub pool : PortAllocator
  pub open_ports : List ℕ

-- the end of the loop: the error says whether a bind has failed
abbrev pub unbound : Bool → PortAllocator → List ℕ → BoundState
unbound bind_failed pa open_ports = record {
  result = if bind_failed then not_bindable else not_available;
  pool = pa;
  open_ports = open_ports;
}

-- The loop of `AllocateBoundUDPPair`. `can_bind p` is whether `ListenUDP` succeeds on `p`, which the
-- loop asks at most once for each port. A failed second bind closes the first socket.
unfoldable pub bound_loop : (ℕ → Bool) → PortAllocator → ℕ → ℕ → Bool → List ℕ → BoundState
bound_loop can_bind pa zero p bind_failed open_ports = unbound bind_failed pa open_ports
bound_loop can_bind pa (suc fuel) p bind_failed open_ports =
    let next = bound_loop can_bind pa fuel (p + 2) in
    if leb p (pa.max_port - 1)
    then if is_used p pa.used || is_used (p + 1) pa.used
      then next bind_failed open_ports
      else if not (can_bind p)
      then next true open_ports
      else (let with_rtp = p ∷ open_ports in
          if not (can_bind (p + 1)) then next true (delete_port p with_rtp) else (record {
            result = bound_pair p (p + 1);
            pool = mark (p + 1) (mark p pa);
            open_ports = (p + 1) ∷ with_rtp;
          }))
    else unbound bind_failed pa open_ports

-- `AllocateBoundUDPPair`
unfoldable pub allocate_bound_udp_pair : (ℕ → Bool) → PortAllocator → BoundState
allocate_bound_udp_pair can_bind pa =
    bound_loop can_bind pa (rounds pa) (first_even_port pa) false []

abbrev pub free_one : ℕ → PortAllocator → PortAllocator
free_one port pa =
    if leb pa.min_port port && leb port pa.max_port
    then record pa { used = delete_port port pa.used }
    else pa

-- `Free`
unfoldable pub free : List ℕ → PortAllocator → PortAllocator
free [] pa = pa
free (port ∷ ports) pa = free ports (free_one port pa)

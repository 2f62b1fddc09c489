-- ===== src/Transport/Socket/Ownership/Kept.antt =====
-- Ownership is kept by everything that a program can do with sockets.
use iso26430_6_asm_prototype.Base.{
  ℕ, ◌≡◌, ◌≢◌, none, Option-cases, false, Bool-cases, inl, inr, ◌==◌, arith,
}
use iso26430_6_asm_prototype.Transport.Socket.Ownership.{
  World, set, sys_close, construct, close, destroy, hand_over, move_construct, move_assign, Step,
  constructs, moves, assigns, closes, destroys, Steps, stays, goes, IsOwned,
}

construct-IsOwned :
    (w : World) (a fd : ℕ)
    → w.objects a ≡ none
    → w.is_open fd ≡ false
    → IsOwned w
    → IsOwned (construct a fd w)
unfolding construct set
construct-IsOwned w a fd free shut h = record {
  unique = λ x y d hx hy. ground (arith, h.unique x y d, h.held x d, h.held y d, hx, hy, shut);
  held = λ x d hx. ground (arith, h.held x d, hx);
  owner = λ d o. elim (Bool-cases (fd == d)) [
    | inl same ↦ (a, ground (arith, same))
    | inr other ↦
        let (x, held) = h.owner d (ground (arith, o, other)) in (x, ground (arith, held, free))
  ];
  faultless = h.faultless;
}

close-IsOwned : (w : World) (a : ℕ) → IsOwned w → IsOwned (close a w)
unfolding close sys_close set
close-IsOwned w a h = elim (Option-cases (w.objects a)) [
  | inl empty ↦ rw empty h
  | inr (fd, e) ↦ rw e (record {
    unique = λ x y d hx hy. ground (arith, h.unique x y d, hx, hy);
    held = λ x d hx. ground (arith, h.held x d, h.unique x a fd, e, hx);
    owner = λ d o. let (x, held) = h.owner d (ground (arith, o)) in (x, ground (arith, held, e, o));
    faultless = ground (arith, h.held a fd e, h.faultless);
  })
]

closed-none : (w : World) (a : ℕ) → (close a w).objects a ≡ none
unfolding close sys_close set
closed-none w a = elim (Option-cases (w.objects a)) [
  | inl empty ↦ rw empty empty
  | inr (fd, e) ↦ rw e (ground arith)
]

hand_over-IsOwned :
    (w : World) (a other : ℕ)
    → w.objects a ≡ none
    → a ≢ other
    → IsOwned w
    → IsOwned (hand_over a other w)
unfolding hand_over set
hand_over-IsOwned w a other free distinct h = record {
  unique = λ x y d hx hy.
      ground (arith, h.unique x y d, h.unique x other d, h.unique y other d, hx, hy, free);
  held = λ x d hx. ground (arith, h.held x d, h.held other d, hx);
  owner = λ d o.
      let (x, held) = h.owner d o in
      elim (Bool-cases (other == x)) [
        | inl same ↦ (a, ground (arith, held, same, distinct))
        | inr elsewhere ↦ (x, ground (arith, held, elsewhere, free))
      ];
  faultless = h.faultless;
}

Step-IsOwned : (w next : World) → Step w next → IsOwned w → IsOwned next
unfolding destroy move_construct move_assign
Step-IsOwned w _ (constructs a fd free shut) h = construct-IsOwned w a fd free shut h
Step-IsOwned w _ (moves a other free distinct) h = hand_over-IsOwned w a other free distinct h
Step-IsOwned w _ (assigns a other) h = elim (Bool-cases (a == other)) [
  | inl same ↦ rw same h
  | inr distinct ↦ rw distinct (
      hand_over-IsOwned (close a w) a other (closed-none w a) (ground (arith, distinct))
        (close-IsOwned w a h))
]
Step-IsOwned w _ (closes a) h = close-IsOwned w a h
Step-IsOwned w _ (destroys a) h = close-IsOwned w a h

-- However sockets are made, moved, assigned, closed and destroyed, each open descriptor is held by exactly one
-- object, so that none is lost, and `::close` is never called on a descriptor that is not open, if that is so
-- at the start.
pub Steps-IsOwned : (last w : World) → Steps last w → IsOwned w → IsOwned last
Steps-IsOwned last _ stays h = h
Steps-IsOwned last _ (goes w next step rest) h =
    Steps-IsOwned last next rest (Step-IsOwned w next step h)

-- ===== src/Examples/Sockets.antt =====
-- Sockets that are moved, closed and destroyed.
use iso26430_6_asm_prototype.Base.{◌≡◌, refl, arith, none, true, false}
use iso26430_6_asm_prototype.Transport.Socket.Ownership.{
  World, set, construct, hand_over, move_construct, valid, close, destroy, stays, goes, constructs,
  moves, closes, destroys, IsOwned,
}
use iso26430_6_asm_prototype.Transport.Socket.Ownership.Kept.{Steps-IsOwned}

-- No sockets and no open descriptors.
abbrev fresh : World
fresh = record { objects = λ a. none; is_open = λ fd. false; faults = 0 }

fresh-IsOwned : IsOwned fresh
fresh-IsOwned = record {
  unique = λ a b fd h k. cc;
  held = λ a fd h. cc;
  owner = λ fd h. absurd (ground (arith, h));
  faultless = refl;
}

-- A socket that is accepted in a temporary, moved, closed, and destroyed.
abbrev closed_twice : World
closed_twice = destroy 1 (close 2 (move_construct 2 1 (construct 1 9 fresh)))

Steps-IsOwned_example : IsOwned closed_twice
unfolding construct set
Steps-IsOwned_example =
    Steps-IsOwned closed_twice fresh
      (goes fresh (construct 1 9 fresh) (constructs 1 9 refl refl) (
        goes (construct 1 9 fresh) (move_construct 2 1 (construct 1 9 fresh))
          (moves 2 1 refl (λ e. cc))
          (goes (move_construct 2 1 (construct 1 9 fresh))
            (close 2 (move_construct 2 1 (construct 1 9 fresh))) (closes 2)
            (goes (close 2 (move_construct 2 1 (construct 1 9 fresh))) closed_twice (destroys 1)
              stays))))
      fresh-IsOwned

moved_away : valid 1 (move_construct 2 1 (construct 1 9 fresh)) ≡ false
unfolding valid move_construct hand_over construct set
moved_away = refl

moved_to : valid 2 (move_construct 2 1 (construct 1 9 fresh)) ≡ true
unfolding valid move_construct hand_over construct set
moved_to = refl

-- ===== src/Transport/Socket/Ownership.antt =====
-- Who closes a descriptor: the constructors, the destructor, the move operations and `close` of `Socket`. Objects
-- are addresses, and `none` is a descriptor below zero.
pub mod Kept
use iso26430_6_asm_prototype.Base.{
  ℕ, ◌+◌, ◌≡◌, ◌≢◌, refl, sym, Option, none, some, Option-cases, Bool, true, false, Bool-cases, inl,
  inr, ◌==◌, ==_iff, arith, if◌then◌else◌,
}

-- What each object holds; which descriptors are open; and how often `::close` was called on one that was not.
pub record World : Type 0 where
  pub objects : ℕ → Option ℕ
  pub is_open : ℕ → Bool
  pub faults : ℕ

unfoldable pub set : {A : Type 0} → ℕ → A → (ℕ → A) → ℕ → A
set a v f b = if a == b then v else f b

-- `::close`.
unfoldable pub sys_close : ℕ → World → World
sys_close fd w = record w {
  is_open = set fd false w.is_open;
  faults = if w.is_open fd then w.faults else w.faults + 1;
}

-- `Socket(int fd)`, for a descriptor that the system has just opened.
unfoldable pub construct : ℕ → ℕ → World → World
construct a fd w = record w { objects = set a (some fd) w.objects; is_open = set fd true w.is_open }

unfoldable pub close_held : Option ℕ → ℕ → World → World
close_held none a w = w
close_held (some fd) a w =
    let closed = sys_close fd w in record closed { objects = set a none closed.objects }

unfoldable pub close : ℕ → World → World
unfolding close_held
close a w = close_held (w.objects a) a w

-- `~Socket`; the object is gone, so that it holds nothing.
unfoldable pub destroy : ℕ → World → World
destroy a w = close a w

-- The descriptor of `other` goes over to another object.
unfoldable pub hand_over : ℕ → ℕ → World → World
hand_over a other w = record w { objects = set other none (set a (w.objects other) w.objects) }

-- `Socket(Socket&& other)`
unfoldable pub move_construct : ℕ → ℕ → World → World
move_construct a other w = hand_over a other w

-- `operator=(Socket&& other)`
unfoldable pub move_assign : ℕ → ℕ → World → World
move_assign a other w = if a == other then w else hand_over a other (close a w)

-- `fd() const`
abbrev pub fd : ℕ → World → Option ℕ
fd a w = w.objects a

unfoldable pub valid : ℕ → World → Bool
valid a w = elim (fd a w) [ none ↦ false | some held ↦ true ]

-- What a program can do with sockets. A new object has storage of its own, and the system opens a descriptor
-- that is not open.
pub data Step (w : World) : World → Type 0 where
  constructs : (a fd : ℕ) → w.objects a ≡ none → w.is_open fd ≡ false → Step w (construct a fd w)
  moves : (a other : ℕ) → w.objects a ≡ none → a ≢ other → Step w (move_construct a other w)
  assigns : (a other : ℕ) → Step w (move_assign a other w)
  closes : (a : ℕ) → Step w (close a w)
  destroys : (a : ℕ) → Step w (destroy a w)

pub data Steps (last : World) : World → Type 0 where
  stays : Steps last last
  goes : (w next : World) → Step w next → Steps last next → Steps last w

-- Each open descriptor is held by one object, and each descriptor that is held is open.
pub record IsOwned (w : World) : Type 0 where
  pub unique : (a b fd : ℕ) → w.objects a ≡ some fd → w.objects b ≡ some fd → a ≡ b
  pub held : (a fd : ℕ) → w.objects a ≡ some fd → w.is_open fd ≡ true
  pub owner : (fd : ℕ) → w.is_open fd ≡ true → (a : ℕ) × (w.objects a ≡ some fd)
  pub faultless : w.faults ≡ 0

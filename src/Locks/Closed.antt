-- ===== src/Locks/Closed.antt =====
-- Calls that lock and unlock in pairs (auto_resend/src/MpAutoResendEngine.cpp,
-- data_msg/src/MpMsgTransport.cpp), put together.
use end_to_end_smkex.Base.{
  ℕ, zero, suc, ◌≤◌, ◌≡◌, refl, ◌∙◌, Bool, true, false, List, [], ◌∷◌, arith,
}
use end_to_end_smkex.Locks.Threads.{Action, release, has, drop_one, lawful, all_below, ordered}
use end_to_end_smkex.Locks.Order.{all_below-has}
use end_to_end_smkex.Locks.Programs.{Program, with_lock, nothing, repeat, when}

-- The call gives back what it takes.
abbrev pub IsClosed : Program → Type 0
IsClosed body = (held : List ℕ) (later : List Action) → lawful held (body later) ≡ lawful held later

pub nothing-IsClosed : IsClosed nothing
unfolding nothing
nothing-IsClosed held later = refl

pub with_lock-IsClosed : (l : ℕ) (body : Program) → IsClosed body → IsClosed (with_lock l body)
unfolding with_lock lawful has drop_one
with_lock-IsClosed l body h held later = ground (arith, h (l ∷ held) (release l ∷ later))

pub repeat-IsClosed : (n : ℕ) (body : Program) → IsClosed body → IsClosed (repeat n body)
unfolding repeat
repeat-IsClosed zero body h held later = refl
repeat-IsClosed (suc n) body h held later =
    h held (repeat n body later) ∙ repeat-IsClosed n body h held later

pub when-IsClosed : (b : Bool) (body : Program) → IsClosed body → IsClosed (when b body)
unfolding when
when-IsClosed true body h held later = h held later
when-IsClosed false body h held later = refl

pub both-IsClosed : (f g : Program) → IsClosed f → IsClosed g → IsClosed (λ later. f (g later))
both-IsClosed f g hf hg held later = hf held (g later) ∙ hg held later

module _ (recursive : ℕ → Bool) (rank : ℕ → ℕ) where
  -- With the locks that `Under` tells of, and none of rank `m` or above, the call takes the locks in
  -- order.
  abbrev pub InOrder : (List ℕ → Type 0) → ℕ → Program → Type 0
  InOrder Under m body =
      (held : List ℕ) (later : List Action)
      → Under held
      → all_below rank m held ≡ true
      → ordered recursive rank held (body later) ≡ ordered recursive rank held later

  all_below_mono :
      (m n : ℕ) (held : List ℕ)
      → m ≤ n
      → all_below rank m held ≡ true
      → all_below rank n held ≡ true
  unfolding all_below
  all_below_mono m n [] le h = refl
  all_below_mono m n (k ∷ ks) le h = ground (arith, all_below_mono m n ks le)

  pub nothing-InOrder : (Under : List ℕ → Type 0) (m : ℕ) → InOrder Under m nothing
  unfolding nothing
  nothing-InOrder Under m held later u below = refl

  -- A lock of rank `m` or above is taken.
  pub with_lock-InOrder :
      (Under Within : List ℕ → Type 0) (m l : ℕ) (body : Program)
      → m ≤ rank l
      → ((held : List ℕ) → Under held → Within (l ∷ held))
      → InOrder Within (suc (rank l)) body
      → InOrder Under m (with_lock l body)
  unfolding with_lock ordered has drop_one all_below
  with_lock-InOrder Under Within m l body le within h held later u below = ground (
    arith,
    all_below_mono m (rank l) held le below,
    all_below_mono m (suc (rank l)) held (omega (arith, le)) below,
    h (l ∷ held) (release l ∷ later) (within held u),
  )

  -- A recursive lock that is held is taken again.
  pub relock-InOrder :
      (Under : List ℕ → Type 0) (m l : ℕ) (body : Program)
      → recursive l ≡ true
      → ((held : List ℕ) → Under held → has l held ≡ true)
      → ((held : List ℕ) → Under held → Under (l ∷ held))
      → InOrder Under m body
      → InOrder Under m (with_lock l body)
  unfolding with_lock ordered has drop_one all_below
  relock-InOrder Under m l body re holds keeps h held later u below = ground (
    arith,
    re,
    holds held u,
    all_below-has rank m l held below (holds held u),
    h (l ∷ held) (release l ∷ later) (keeps held u),
  )

  module _ (Under : List ℕ → Type 0) (m : ℕ) where
    pub repeat-InOrder :
        (n : ℕ) (body : Program) → InOrder Under m body → InOrder Under m (repeat n body)
    unfolding repeat
    repeat-InOrder zero body h held later u below = refl
    repeat-InOrder (suc n) body h held later u below =
        h held (repeat n body later) u below ∙ repeat-InOrder n body h held later u below

    pub when-InOrder :
        (b : Bool) (body : Program) → InOrder Under m body → InOrder Under m (when b body)
    unfolding when
    when-InOrder true body h held later u below = h held later u below
    when-InOrder false body h held later u below = refl

    pub both-InOrder :
        (f g : Program)
        → InOrder Under m f
        → InOrder Under m g
        → InOrder Under m (λ later. f (g later))
    both-InOrder f g hf hg held later u below = hf held (g later) u below ∙ hg held later u below

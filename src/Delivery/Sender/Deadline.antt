-- ===== src/Delivery/Sender/Deadline.antt =====
-- internal/delivery/sender.go: ctxBoundConn, by which the context of a Send bounds the I/O on its
-- connections. The connection itself (net.Conn) has a deadline that its last SetDeadline set, and an
-- operation fails from the deadline on, and after Close. go-smtp calls SetDeadline before and after
-- each command.
use doevoe.Base.{
  ℕ, ◌≤◌, ◌<◌, ◌≡◌, refl, sym, ap, ◌∙◌, subst, arith, Bool, true, false, ◌&&◌, not, Option, none,
  some, List, [], ◌∷◌, leb, All, Bool-cases, inl, inr, if◌then◌else◌,
}

-- net.Conn, and the watcher's goroutine, which waits in its select until the context ends or Close
-- stops it.
pub record CtxBoundConn : Type 0 where
  pub deadline : Option ℕ
  pub closed : Bool
  pub is_watched : Bool

-- newCtxBoundConn of a connection that has just been dialed.
abbrev pub new_ctx_bound_conn : CtxBoundConn
new_ctx_bound_conn = record { deadline = none; closed = false; is_watched = true }

-- What happens on a connection: its context ends at a time, a SetDeadline, a Close.
pub data Event : Type 0 where
  context_ends : ℕ → Event
  set_deadline : Option ℕ → Event
  close : Event

-- The watcher wakes up, sets the deadline to the time, and is gone.
unfoldable pub wake : ℕ → CtxBoundConn → CtxBoundConn
wake at c = if c.is_watched then record c { deadline = some at; is_watched = false } else c

-- Close: the first call stops the watcher.
unfoldable pub close_conn : CtxBoundConn → CtxBoundConn
close_conn c = record c { closed = true; is_watched = false }

unfoldable pub after : Event → CtxBoundConn → CtxBoundConn
unfolding wake close_conn
after (context_ends at) c = wake at c
after (set_deadline d) c = record c { deadline = d }
after close c = close_conn c

unfoldable pub after_all : List Event → CtxBoundConn → CtxBoundConn
unfolding after
after_all [] c = c
after_all (e ∷ es) c = after_all es (after e c)

abbrev pub is_before : ℕ → Option ℕ → Bool
is_before at none = true
is_before at (some d) = not (leb d at)

-- Whether a read or a write at a time may succeed.
unfoldable pub may_transfer : ℕ → CtxBoundConn → Bool
may_transfer at c = not c.closed && is_before at c.deadline

abbrev pub is_set_deadline : Event → Bool
is_set_deadline (set_deadline d) = true
is_set_deadline _ = false

-- A connection that a later end of the context or a Close leaves bounded at a time.
record Bounded (at : ℕ) (c : CtxBoundConn) : Type 0 where
  unwatched : c.is_watched ≡ false
  bound : c.closed ≡ false → c.deadline ≡ some at

wake-unwatched : (at : ℕ) (c : CtxBoundConn) → c.is_watched ≡ false → wake at c ≡ c
unfolding wake
wake-unwatched at c h =
    ap (λ (b : Bool). if b then record c { deadline = some at; is_watched = false } else c) h

after-Bounded :
    (at : ℕ) (e : Event) (c : CtxBoundConn)
    → is_set_deadline e ≡ false
    → Bounded at c
    → Bounded at (after e c)
unfolding after close_conn
after-Bounded at (context_ends t) c h b =
    subst (Bounded at) (sym (wake-unwatched t c b.unwatched)) b
after-Bounded at (set_deadline d) c h b = cc
after-Bounded at close c h b = record { unwatched = refl; bound = λ open_yet. cc }

after_all-Bounded :
    (at : ℕ) (es : List Event) (c : CtxBoundConn)
    → All (λ e. is_set_deadline e ≡ false) es
    → Bounded at c
    → Bounded at (after_all es c)
unfolding after_all
after_all-Bounded at [] c h b = b
after_all-Bounded at (e ∷ es) c h b =
    after_all-Bounded at es (after e c) h.1 (after-Bounded at e c h.0 b)

Bounded-may_transfer :
    (at t : ℕ) (c : CtxBoundConn) → at ≤ t → Bounded at c → may_transfer t c ≡ false
unfolding may_transfer
Bounded-may_transfer at t c late b = elim (Bool-cases c.closed) [
  | inl done ↦ rw done refl
  | inr open_yet ↦ rw (open_yet, b.bound open_yet) (ground (arith, late))
]

-- If the context of a watched connection ends at a time, and no deadline is set afterwards, then
-- from that time on nothing is transferred on the connection, whatever else happens to it.
ended-may_transfer :
    (at t : ℕ) (es : List Event) (c : CtxBoundConn)
    → c.is_watched ≡ true
    → All (λ e. is_set_deadline e ≡ false) es
    → at ≤ t
    → may_transfer t (after_all (context_ends at ∷ es) c) ≡ false
unfolding after_all after wake
ended-may_transfer at t es c watched quiet late =
    Bounded-may_transfer at t (after_all (context_ends at ∷ es) c) late (
      after_all-Bounded at es (after (context_ends at) c) quiet
        (rw watched (record { unwatched = refl; bound = λ open_yet. refl })))

abbrev pub is_end : Event → Bool
is_end (context_ends at) = true
is_end _ = false

-- Ends of the context do nothing to a connection without a watcher.
ends-unwatched :
    (es : List Event) (c : CtxBoundConn)
    → All (λ e. is_end e ≡ true) es
    → c.is_watched ≡ false
    → after_all es c ≡ c
unfolding after_all after
ends-unwatched [] c h u = refl
ends-unwatched (context_ends at ∷ es) c h u =
    ap (after_all es) (wake-unwatched at c u) ∙ ends-unwatched es c h.1 u
ends-unwatched (set_deadline d ∷ es) c h u = cc
ends-unwatched (close ∷ es) c h u = cc

-- If the context of a connection that is open and watched ends, and a deadline is set afterwards,
-- as go-smtp does for each command, then the connection may transfer until that deadline, however
-- often the context is found to have ended.
pub set_deadline-revives :
    (at d t : ℕ) (es : List Event) (c : CtxBoundConn)
    → c.closed ≡ false
    → c.is_watched ≡ true
    → All (λ e. is_end e ≡ true) es
    → t < d
    → may_transfer t (after_all (context_ends at ∷ set_deadline (some d) ∷ es) c) ≡ true
unfolding after_all after wake
set_deadline-revives at d t es c open_yet watched ends early = rw watched (
    rw (ends-unwatched es (record c { deadline = some d; is_watched = false }) ends refl)
      (unfold may_transfer in rw open_yet (ground (arith, early))))

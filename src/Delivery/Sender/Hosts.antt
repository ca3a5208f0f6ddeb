-- ===== src/Delivery/Sender/Hosts.antt =====
-- Which hosts a Send tries, internal/delivery/sender.go, and which of them decides.
use doevoe.Base.{
  ◌≤◌, ◌≡◌, refl, Text, Bool, List, [], ◌∷◌, arith, length, take, length-take, trim_dot, map,
}
use doevoe.Delivery.Classify.{SendError, Class, temp, perm, classify}
use doevoe.Delivery.Sender.{
  Mx, Delivered, delivered, undelivered, Walked, accepted_by, failed_at, no_host, Walk, or_last,
  step_walk, walk, targets, sort_mx, insert_mx, max_mx_attempts,
}

-- The hosts that were tried before the deciding one, each with a temporary error, and the decision:
-- the first delivery, the first permanent error, or the last temporary one.
pub data Tried (deliver : Text → Delivered) : List Text → List Text → Walked → Type 0 where
  nowhere : Tried deliver [] [] no_host
  accepted :
      {host : Text} {rest : List Text} {tls : Bool}
      → deliver host ≡ delivered tls
      → Tried deliver (host ∷ rest) (host ∷ []) (accepted_by host tls)
  rejected :
      {host : Text} {rest : List Text} {e : SendError}
      → deliver host ≡ undelivered e
      → classify e ≡ perm
      → Tried deliver (host ∷ rest) (host ∷ []) (failed_at host e)
  exhausted :
      {host : Text} {e : SendError}
      → deliver host ≡ undelivered e
      → classify e ≡ temp
      → Tried deliver (host ∷ []) (host ∷ []) (failed_at host e)
  onward :
      {host next : Text} {rest tried : List Text} {e : SendError} {ended : Walked}
      → deliver host ≡ undelivered e
      → classify e ≡ temp
      → Tried deliver (next ∷ rest) tried ended
      → Tried deliver (host ∷ next ∷ rest) (host ∷ tried) ended

abbrev pub host_of : Mx → Text
host_of m = trim_dot m.host

module _ (deliver : Text → Delivered) where
  some_host : {next : Text} {rest tried : List Text} → Tried deliver (next ∷ rest) tried no_host → ⊥
  some_host (onward d c t) = some_host t

  onward_from :
      (host next : Text) (e : SendError) (rest tried : List Text) (ended : Walked)
      → Tried deliver (next ∷ rest) tried ended
      → deliver host ≡ undelivered e
      → classify e ≡ temp
      → let w = or_last host e (record { ended = ended; tried = tried }) in
        Tried deliver (host ∷ next ∷ rest) w.tried w.ended
  onward_from host next e rest tried (accepted_by h tls) t d c = onward d c t
  onward_from host next e rest tried (failed_at h x) t d c = onward d c t
  onward_from host next e rest tried no_host t d c = absurd (some_host t)

  after_temp :
      (host : Text) (e : SendError) (hosts tried : List Text) (ended : Walked)
      → Tried deliver hosts tried ended
      → deliver host ≡ undelivered e
      → classify e ≡ temp
      → let w = or_last host e (record { ended = ended; tried = tried }) in
        Tried deliver (host ∷ hosts) w.tried w.ended
  after_temp host e [] tried ended nowhere d c = exhausted d c
  after_temp host e (next ∷ rest) tried ended t d c = onward_from host next e rest tried ended t d c

  step_walk-Tried :
      (host : Text) (hosts : List Text) (later : Walk) (o : Delivered)
      → Tried deliver hosts later.tried later.ended
      → deliver host ≡ o
      → let w = step_walk host later o in Tried deliver (host ∷ hosts) w.tried w.ended
  unfolding step_walk
  step_walk-Tried host hosts later (delivered tls) t d = accepted d
  step_walk-Tried host hosts later (undelivered e) t d = by_class (classify e) refl
    where
      by_class :
          (c : Class)
          → classify e ≡ c
          → let w : Walk = elim c [
            | perm ↦ record { ended = failed_at host e; tried = host ∷ [] }
            | temp ↦ or_last host e later
          ] in
            Tried deliver (host ∷ hosts) w.tried w.ended
      by_class perm c = rejected d c
      by_class temp c = after_temp host e hosts later.tried later.ended t d c

  -- The walk of Send over hosts tries a prefix of them: each tried host but the last had a
  -- temporary error, and the last one decides, by the first delivery, the first permanent error,
  -- or, if no host is left, its own temporary error. Only a walk over no hosts has no decision.
  pub walk-Tried :
      (ms : List Mx) → let w = walk deliver ms in Tried deliver (map host_of ms) w.tried w.ended
  unfolding walk
  walk-Tried [] = nowhere
  walk-Tried (m ∷ ms) =
      step_walk-Tried (host_of m) (map host_of ms) (walk deliver ms) (deliver (host_of m))
        (walk-Tried ms) refl

insert_mx_there : (m : Mx) (ms : List Mx) → 1 ≤ length (take max_mx_attempts (insert_mx m ms))
unfolding insert_mx
insert_mx_there m [] = omega arith
insert_mx_there m (x ∷ xs) = ground arith

-- Send walks over at least one host and at most three, whatever the MX lookup gave.
pub targets-length :
    (domain : Text) (mxs : List Mx)
    → (1 ≤ length (targets domain mxs)) × (length (targets domain mxs) ≤ 3)
unfolding targets sort_mx
targets-length domain [] =
    let lone : Mx = record { host = domain; pref = 0 } in
    (insert_mx_there lone [], length-take 3 (sort_mx (lone ∷ [])))
targets-length domain (m ∷ ms) = (insert_mx_there m (sort_mx ms), length-take 3 (sort_mx (m ∷ ms)))

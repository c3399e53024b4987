-- ===== src/System/Handshake.antt =====
-- src/assignment_1/: a request passes from the processor to the port, to the cache, and back as an
-- answer.
use psa.Prelude.{
  ◌≡◌, ◌⊎◌, Bool, true, false, List, [], ◌∷◌, ◌++◌, Option, none, some, arith, append-nil,
}
use psa.World.{RetCode}
use psa.SingleCache.Serving.{Asked}

abbrev pub is_done : Option RetCode → Bool
is_done none = false
is_done (some code) = true

abbrev pub is_nothing : List Asked → Bool
is_nothing [] = true
is_nothing (a ∷ rest) = false

-- What a processor waits for stands at the port, is served by the cache, or was answered.
abbrev pub Link : List Asked → List Asked → List Asked → Bool → Type 0
Link want port serves done =
    ((port ≡ want) × (serves ≡ []) × (done ≡ false))
    ⊎ ((port ≡ []) × (serves ≡ want) × (done ≡ false))
    ⊎ ((port ≡ []) × (serves ≡ []) × (done ≡ true) × (is_nothing want ≡ false))

-- The requests in their order, up to those that are on their way
abbrev pub Order : List Asked → List Asked → List Asked → List Asked → Type 0
Order answered port serves all = answered ++ port ++ serves ≡ all

module _ (want port serves : List Asked) (done : Bool) (answered all : List Asked)
    (link : Link want port serves done) (order : Order answered port serves all) where
  -- A processor that waits for nothing has nothing on its way.
  pub nothing_waits : want ≡ [] → (port ≡ []) × (serves ≡ []) × (done ≡ false)
  nothing_waits e = ground arith

  pub fetched-Order : want ≡ [] → (new : List Asked) → Order answered new serves (all ++ new)
  fetched-Order e new =
      let (p, k, _) = nothing_waits e in
      let old : answered ≡ all = cc (append-nil answered, p, k, order) in
      rw (k, old) (append-nil (all ++ new))

  -- The cache takes what stands at the port.
  pub taken-Link : serves ≡ [] → Link want [] port done
  taken-Link e = ground arith

  pub taken-Order : serves ≡ [] → Order answered [] port all
  taken-Order e = cc (append-nil answered, append-nil (answered ++ port), e, order)

  -- The cache answers what it serves.
  pub answered-Link : is_nothing serves ≡ false → Link want port [] true
  answered-Link e = ground arith

  pub answered-Order : is_nothing serves ≡ false → Order (answered ++ serves) port [] all
  answered-Order e =
      let p : port ≡ [] = ground arith in
      cc (append-nil answered, append-nil (answered ++ serves), p, order)

  -- The processor sees the answer.
  pub seen-Link : done ≡ true → Link [] port serves false
  seen-Link e = ground arith

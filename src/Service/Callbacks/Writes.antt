-- ===== src/Service/Callbacks/Writes.antt =====
-- What the IO thread does with the write requests: it takes the ready ones, and gives back the
-- ones that it is done with.
use tcpeen.Base.{
  ℕ, zero, suc, ◌≡◌, refl, sym, ap, ◌∙◌, Option, Bool, Bool-cases, true, false, not, ◌&&◌, none,
  some, List, [], ◌∷◌, ◌++◌, modify, get_elem?, get_elem?-some, inl, inr, ◌⊎◌, Status, failed,
  if◌then◌else◌,
}
use mathlib.Core.Path.{fun_ext}
use tcpeen.Queue
use tcpeen.Queue.Refine.{contents}
use tcpeen.Pool
use tcpeen.Channel.{Channel, ChannelState, channel_open}
use tcpeen.Service.{Service, WriteReq, channel_at, change_req}
use tcpeen.Service.Callbacks.{on_send_cb, count_send, return_write, prepare}
use tcpeen.Service.Send.Inv.{
  IsValid, elsewhere, IsLoaded, Others, buffer_in, buffer_of, modify-Others,
}
use tcpeen.Service.Send.Changes.{returned}

held_buffer :
    {n i : ℕ} {reqs : List WriteReq} (l : IsLoaded n reqs i)
    → l.req.buffer ≡ some (buffer_of reqs i)
held_buffer l =
    l.buffer
    ∙ ap some (
        sym (
          ap buffer_in l.there
          ∙ ap (λ b. buffer_in (some (record (l.req) { buffer = b }))) l.buffer))

-- The members of a request that is given back.
abbrev emptied : WriteReq → WriteReq
emptied w = record w { buffer = none }

-- The service with request `i` and its buffer given back, and the requests `reqs`.
abbrev given_back : ℕ → List WriteReq → Service → Service
given_back i reqs s = record s {
  write_reqs_free = (Queue.push s.write_reqs_free i).1;
  write_reqs = reqs;
  pool_write = (Pool.push s.pool_write (buffer_of s.write_reqs i)).1;
}

module _ {k m i : ℕ} {writing : List ℕ} {s : Service} (v : IsValid k m (i ∷ writing) s) where
  sent_back :
      (sent : Status)
      → let c = count_send s.counters sent v.writing_loaded.0.req.len in
        on_send_cb s i sent
        ≡ record (given_back i (modify s.write_reqs i emptied) s) { counters = c }
  unfolding on_send_cb
  sent_back sent = let l = v.writing_loaded.0 in rw (on_send_cb, l.there, held_buffer l) refl

  -- A request that libuv has and is done with goes back to the free ones, its buffer goes back to
  -- the pool, and the service stays valid, whatever the status of the write.
  pub on_send_cb-IsValid :
      (sent : Status)
      → let s' = on_send_cb s i sent in
        IsValid k m writing s'
        × (contents s'.write_reqs_free ≡ contents s.write_reqs_free ++ i ∷ [])
        × (contents s'.pool_write.free
            ≡ contents s.pool_write.free ++ buffer_of s.write_reqs i ∷ [])
        × (contents s'.write_reqs_ready ≡ contents s.write_reqs_ready)
  on_send_cb-IsValid sent =
      let (_, free, pool, w) =
        returned v (modify s.write_reqs i emptied) (modify-Others s.write_reqs i emptied) in
      rw (sent_back sent) (
        elsewhere w (record s { counters = count_send s.counters sent v.writing_loaded.0.req.len }),
        free,
        pool,
        refl,
      )

abbrev is_open : ChannelState → Bool
is_open st = elim st [ channel_open ↦ true | _ ↦ false ]

by_state :
    (st : ChannelState) (x y : Bool × Service)
    → elim st as (λ _. Bool × Service) [ channel_open ↦ x | _ ↦ y ] ≡ (if is_open st then x else y)
by_state st x y =
    elim st
      as (λ st.
        elim st as (λ _. Bool × Service) [ channel_open ↦ x | _ ↦ y ]
        ≡ (if is_open st then x else y)) [ channel_open ↦ refl | _ ↦ refl ]

abbrev channel_of : List WriteReq → ℕ → Option ℕ
channel_of reqs i = elim (get_elem? reqs i) [ none ↦ none | some w ↦ w.channel ]

channel_of-emptied :
    (reqs : List WriteReq) (i j : ℕ) → channel_of (modify reqs i emptied) j ≡ channel_of reqs j
channel_of-emptied [] i j = refl
channel_of-emptied (w ∷ reqs) zero zero = refl
channel_of-emptied (w ∷ reqs) zero (suc j) = refl
channel_of-emptied (w ∷ reqs) (suc i) zero = refl
channel_of-emptied (w ∷ reqs) (suc i) (suc j) = channel_of-emptied reqs i j

-- A ready request is written where its channel is open and libuv takes it.
abbrev pub goes : (ℕ → Status) → List Channel → List WriteReq → ℕ → Bool
goes written channels reqs i = elim (channel_of reqs i) [
  | none ↦ false
  | some c ↦ elim (get_elem? channels c) [
    | none ↦ false
    | some channel ↦ is_open channel.state && not (failed (written i))
  ]
]

goes-emptied :
    (written : ℕ → Status) (channels : List Channel) (reqs : List WriteReq) (i : ℕ)
    → goes written channels (modify reqs i emptied) ≡ goes written channels reqs
goes-emptied written channels reqs i = fun_ext (λ j.
    ap
      (λ o. elim o as (λ _. Bool) [
        | none ↦ false
        | some c ↦ elim (get_elem? channels c) [
          | none ↦ false
          | some channel ↦ is_open channel.state && not (failed (written j))
        ]
      ])
      (channel_of-emptied reqs i j))

-- What becomes of a ready request.
module _ {k m i : ℕ} {writing : List ℕ} {s : Service} (written : ℕ → Status)
    (v : IsValid k m (i ∷ writing) s) where
  put_back : Service → Service
  put_back u = record u { write_reqs_free = (Queue.push u.write_reqs_free i).1 }

  written_to : Service → Bool × Service
  written_to u =
      if failed (written i) then (false, change_req (put_back u) i emptied) else (true, s)

  prepare_eq :
      let l = v.writing_loaded.0 in
      (c : Channel)
      → channel_at s l.target ≡ some c
      → (prepare written s i ≡ (
          if is_open c.state
          then (if failed (written i)
              then (false, given_back i (modify s.write_reqs i emptied) s)
              else (true, s))
          else (false, given_back i s.write_reqs s)))
        × (goes written s.channel_list.client_map s.write_reqs i
            ≡ is_open c.state && not (failed (written i)))
  unfolding prepare put_back written_to
  prepare_eq c found =
      let l = v.writing_loaded.0 in
      (
        rw (prepare, l.there, l.channel, found)
              (by_state c.state (written_to (return_write s l.req.buffer))
                (false, put_back (return_write s l.req.buffer)))
            ∙ ap (λ u. if is_open c.state then written_to u else (false, put_back u))
                (ap (return_write s) (held_buffer l)),
        rw (goes, l.there, l.channel, found) refl,
      )

  abbrev pub Dropped : Service → Type 0
  Dropped s' =
      IsValid k m writing s'
      × (contents s'.write_reqs_free ≡ contents s.write_reqs_free ++ i ∷ [])
      × (s'.write_reqs_ready ≡ s.write_reqs_ready)
      × (goes written s'.channel_list.client_map s'.write_reqs
          ≡ goes written s.channel_list.client_map s.write_reqs)

  dropped :
      (reqs : List WriteReq)
      → Others i s.write_reqs reqs
      → goes written s.channel_list.client_map reqs
        ≡ goes written s.channel_list.client_map s.write_reqs
      → Dropped (given_back i reqs s)
  dropped reqs o g = let (_, free, _, w) = returned v reqs o in (w, free, refl, g)

  pub prepare_cases :
      let g = goes written s.channel_list.client_map s.write_reqs i in
      ((g ≡ true) × (prepare written s i ≡ (true, s)))
      ⊎ ((s' : Service) × (g ≡ false) × (prepare written s i ≡ (false, s')) × Dropped s')
  prepare_cases =
      let l = v.writing_loaded.0 in
      let (c, found) = get_elem?-some s.channel_list.client_map l.target l.known in
      let (e, g) = prepare_eq c found in
      let same : Others i s.write_reqs s.write_reqs = record {
        as_many = refl;
        same = λ j ne. refl;
      } in
      let drop : Service = given_back i s.write_reqs s in
      let fail : Service = given_back i (modify s.write_reqs i emptied) s in
      elim (Bool-cases (is_open c.state)) [
        | inr closed ↦
            inr (drop, rw (g, closed) refl, rw (e, closed) refl, dropped s.write_reqs same refl)
        | inl opened ↦ elim (Bool-cases (failed (written i))) [
          | inl refused ↦ inr (
            fail,
            rw (g, opened, refused) refl,
            rw (e, opened) (rw refused refl),
            dropped (modify s.write_reqs i emptied) (modify-Others s.write_reqs i emptied)
                (goes-emptied written s.channel_list.client_map s.write_reqs i),
          )
          | inr accepted ↦ inl (rw (g, opened, accepted) refl, rw (e, opened) (rw accepted refl))
        ]
      ]

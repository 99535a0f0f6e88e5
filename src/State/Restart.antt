-- ===== src/State/Restart.antt =====
-- internal/state: what a restart of the daemon finds after any sequence of calls, each of which
-- may have been cut off anywhere in its writes.
use ya_router.Common.{
  ℕ, ◌+◌, ◌<◌, ◌≤◌, ◌^◌, true, some, List, [], ◌∷◌, ◌⊎◌, inr, ◌≡◌, refl, sym, subst, arith, branch,
  ◌==◌, length, if◌then◌else◌, ◌=?◌, text_key,
}
use ya_router.State.{
  Metadata, Options, Disk, Manager, Snapshot, StateError, Reached, nowhere, config_copied,
  backed_up, config_renamed, metadata_renamed, done, save, persist, metadata_of, written,
}
use ya_router.State.Mutations.{valid}
use ya_router.State.Load.{load, load_config, load_valid, loaded, with_metadata}
use ya_router.State.Calls.{Call, call, run}
use ya_router.State.Coherent.{IsAccepted, AcceptsOwn, IsNext, call-by, valid_accepted}
use ya_router.State.Revisions.{revision-call}

abbrev pub revision_of : Metadata → ℕ
revision_of k = if k.revision == 0 then 1 else k.revision

module _ {Config : Type 0} (o : Options Config) where
  -- The loader can read every configuration that the validator accepts, possibly with defaults and
  -- migrations, and the validator accepts what it reads.
  abbrev pub LoadsAccepted : Type 0
  LoadsAccepted =
      (c : Config) → IsAccepted o c → (d : Config) × ((o.loader c ≡ inr d) × IsAccepted o d)

  -- The digests are those of the configurations, which the validator accepts.
  pub record IsCoherent (s : Snapshot Config) : Type 0 where
    pub digest : s.digest ≡ o.digest s.desired
    pub effective_digest : s.effective_digest ≡ o.digest s.effective
    pub accepted : IsAccepted o s.desired

  -- The files hold the configuration `c`, which can be loaded, and metadata that is not behind.
  pub record IsDurable (c : Config) (k : Metadata) (m : Manager Config) : Type 0 where
    pub config : valid o (load_config o m.disk.config o.initial) ≡ inr c
    pub metadata : m.disk.metadata ≡ some k
    pub not_behind : m.snapshot.revision ≤ revision_of k
    pub not_ahead : revision_of k ≤ m.snapshot.revision + 1
    pub accepted : IsAccepted o m.snapshot.desired

  abbrev pub Durable : Manager Config → Type 0
  Durable m = (c : Config) × ((k : Metadata) × IsDurable c k m)

  -- what a start makes of a file with the configuration `c`
  abbrev pub Starts : Config → Type 0
  Starts c = (e : Config) × (valid o (load_config o (some c) o.initial) ≡ inr e)

  pub accepted_file : (c : Config) → LoadsAccepted → IsAccepted o c → Starts c
  accepted_file c loads v =
      let read = loads c v in (read.1.1.0, ground (arith, read.1.0, read.1.1.1))

  save-Durable :
      (reached : Reached) (next : Snapshot Config) (m : Manager Config)
      → LoadsAccepted
      → AcceptsOwn o
      → m.snapshot.revision + 1 < 2 ^ 64
      → IsNext o m next
      → Durable m
      → Durable (save o reached next m).0
  unfolding save persist
  save-Durable nowhere next m loads own room u (c, (k, v)) = (c, (k, v))
  save-Durable config_copied next m loads own room u (c, (k, v)) = (
    c,
    (
      k,
      record {
        config = v.config;
        metadata = v.metadata;
        not_behind = v.not_behind;
        not_ahead = v.not_ahead;
        accepted = v.accepted;
      },
    ),
  )
  save-Durable backed_up next m loads own room u (c, (k, v)) = (
    c,
    (
      k,
      record {
        config = v.config;
        metadata = v.metadata;
        not_behind = v.not_behind;
        not_ahead = v.not_ahead;
        accepted = v.accepted;
      },
    ),
  )
  save-Durable config_renamed next m loads own room u (c, (k, v)) =
      let next_accepted = u.accepted own v.accepted in
      let file = accepted_file next.desired loads next_accepted in
      (
        file.0,
        (
          k,
          record {
            config = file.1;
            metadata = v.metadata;
            not_behind = v.not_behind;
            not_ahead = v.not_ahead;
            accepted = v.accepted;
          },
        ),
      )
  save-Durable metadata_renamed next m loads own room u (c, (k, v)) =
      let next_accepted = u.accepted own v.accepted in
      let file = accepted_file next.desired loads next_accepted in
      (
        file.0,
        (
          metadata_of o next,
          record {
            config = file.1;
            metadata = refl;
            not_behind = ground (arith, u.revision, room);
            not_ahead = ground (arith, u.revision, room);
            accepted = v.accepted;
          },
        ),
      )
  save-Durable done next m loads own room u (c, (k, v)) =
      let next_accepted = u.accepted own v.accepted in
      let file = accepted_file next.desired loads next_accepted in
      (
        file.0,
        (
          metadata_of o next,
          record {
            config = file.1;
            metadata = refl;
            not_behind = ground (arith, u.revision, room);
            not_ahead = ground (arith, u.revision, room);
            accepted = next_accepted;
          },
        ),
      )

  call-Durable :
      (x : Call Config) (m : Manager Config)
      → LoadsAccepted
      → AcceptsOwn o
      → m.snapshot.revision + 1 < 2 ^ 64
      → Durable m
      → Durable (call o x m)
  call-Durable x m loads own room (c, (k, v)) =
      let now : Durable m = (c, (k, v)) in
      call-by o Durable x m now
        (
          c,
          (
            k,
            record {
              config = v.config;
              metadata = v.metadata;
              not_behind = v.not_behind;
              not_ahead = v.not_ahead;
              accepted = v.accepted;
            },
          ),
        )
        (λ reached next u. save-Durable reached next m loads own room u now)

  pub run-Durable :
      (xs : List (Call Config)) (m : Manager Config)
      → LoadsAccepted
      → AcceptsOwn o
      → m.snapshot.revision + length xs < 2 ^ 64
      → Durable m
      → Durable (run o xs m) × ((run o xs m).snapshot.revision ≤ m.snapshot.revision + length xs)
  unfolding run
  run-Durable [] m loads own room v = (v, omega arith)
  run-Durable (x ∷ xs) m loads own room v =
      let step = revision-call o x m (omega (arith, room)) in
      let rest =
        run-Durable xs (call o x m) loads own (omega (arith, room, step))
          (call-Durable x m loads own (omega (arith, room)) v) in
      (rest.0, omega (arith, rest.1, step))

  -- A restart succeeds, with a coherent snapshot whose revision is not below `r`.
  abbrev pub RestartsFrom : ℕ → StateError ⊎ Manager Config → Type 0
  RestartsFrom r x =
      (n : Manager Config) × ((x ≡ inr n) × ((r ≤ n.snapshot.revision) × IsCoherent n.snapshot))

  pub with_metadata-RestartsFrom :
      (now : ℕ) (c : Config) (k : Metadata) (d : Disk Config) (r : ℕ)
      → r ≤ revision_of k
      → revision_of k + 1 < 2 ^ 64
      → IsAccepted o c
      → RestartsFrom r (with_metadata o written now c (o.digest c) d (some k)).1
  unfolding loaded
  with_metadata-RestartsFrom now c k d r h room ok =
      branch (λ (z : Disk Config × (StateError ⊎ Manager Config)). RestartsFrom r z.1)
        (k.digest =? o.digest c)
        (_, (refl, (h, record { digest = refl; effective_digest = refl; accepted = ok })))
        (
          _,
          (
            refl,
            (
              ground (arith, h, room),
              record { digest = refl; effective_digest = refl; accepted = ok },
            ),
          ),
        )

  pub Durable-RestartsFrom :
      (now : ℕ) (m : Manager Config)
      → AcceptsOwn o
      → m.snapshot.revision + 2 < 2 ^ 64
      → Durable m
      → RestartsFrom m.snapshot.revision (load o true written now m.disk).1
  unfolding load
  Durable-RestartsFrom now m own room (c, (k, v)) =
      subst (λ x. RestartsFrom m.snapshot.revision (load_valid o true written now m.disk x).1)
        (sym v.config)
        (subst
          (λ x.
            RestartsFrom m.snapshot.revision
              (with_metadata o written now c (o.digest c) m.disk x).1)
          (sym v.metadata)
          (with_metadata-RestartsFrom now c k m.disk m.snapshot.revision v.not_behind
            (omega (arith, room, v.not_ahead)) (valid_accepted o _ c v.config own)))

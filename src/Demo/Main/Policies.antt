-- ===== src/Demo/Main/Policies.antt =====
-- prefetcher_demo/src/main.rs: which prefetchers run while the policy is changed.
use orpc_prototype.Prelude.{
  ℕ, ◌≡◌, ◌≢◌, refl, sym, ap, ◌∙◌, inl, inr, arith, Bool, true, false, ◌||◌, Option, none, some,
  List, [], ◌∷◌, ◌++◌, Outcome-cases, done, panic, subst, length, get_elem?, set, Bool-cases,
  Option-cases, get_elem?-set_self, get_elem?-set_ne, get_elem?-lt, get_elem?-append_left,
  get_elem?-append_last, length-append, dec_lt, ℕ_discrete,
}
use orpc_prototype.Rpc.{Result, ok, err}
use orpc_prototype.Locking.{try_send}
use orpc_prototype.Demo.{ShutdownState, shutdown}
use orpc_prototype.Demo.Spawn.{Connection, spawn_next_page, spawn_stride, spawn_stride_load_aware}
use orpc_prototype.Demo.Main
use orpc_prototype.Demo.Main.{
  PrefetchPolicyKind, no_policy, next, strided, load_aware, kind_eq, Prefetcher, DemoServers,
  PrefetcherDemo, new_demo, Widgets, request_shutdown, shutdown_policy, install, spawn_policy,
  change_policy, with_load, send_load, update, new_servers, set_running,
}

-- A prefetcher that was told to stop, or whose server is aborted.
abbrev pub stopped : Prefetcher → Bool
stopped p = p.aborted || p.state.is_shutdown

-- All prefetchers that were spawned have stopped or been told to, but for the one at the place, if any.
abbrev pub OthersStopped : Option ℕ → List Prefetcher → Type 0
OthersStopped o l =
    (j : ℕ) (p : Prefetcher) → get_elem? l j ≡ some p → o ≢ some j → stopped p ≡ true

pub record AtMostOne (d : PrefetcherDemo) : Type 0 where
  pub others : OthersStopped d.servers.policy d.servers.spawned
  pub current :
      (k : ℕ)
      → d.servers.policy ≡ some k
      → (p : Prefetcher) × (get_elem? d.servers.spawned k ≡ some p) × (p.kind ≡ d.policy)

kind_eq-true : (a b : PrefetchPolicyKind) → kind_eq a b ≡ true → a ≡ b
unfolding kind_eq
kind_eq-true no_policy no_policy e = refl
kind_eq-true next next e = refl
kind_eq-true strided strided e = refl
kind_eq-true load_aware load_aware e = refl
kind_eq-true _ _ e = ground arith

-- After the request the prefetcher has stopped or been told to.
request_shutdown-stopped : (p : Prefetcher) → stopped (request_shutdown p) ≡ true
unfolding request_shutdown shutdown
request_shutdown-stopped p = elim (Bool-cases p.aborted) [ inl e ↦ rw e | inr e ↦ rw e ]

-- A prefetcher that has stopped takes the place of another.
set-OthersStopped :
    (l : List Prefetcher) (o : Option ℕ) (k : ℕ) (q q' : Prefetcher)
    → get_elem? l k ≡ some q
    → stopped q' ≡ true
    → ((j : ℕ) (p : Prefetcher) → get_elem? l j ≡ some p → k ≢ j → o ≢ some j → stopped p ≡ true)
    → OthersStopped o (set l k q')
set-OthersStopped l o k q q' e still h j p f n = elim (ℕ_discrete k j) [
  | yes same ↦
      let own = get_elem?-set_self l k q' (get_elem?-lt l k q e) in
      let found : some q' ≡ some p = sym own ∙ ap (get_elem? (set l k q')) same ∙ f in
      let it : q' ≡ p = cc in ap stopped (sym it) ∙ still
  | no apart ↦ h j p (sym (get_elem?-set_ne l k j q' apart) ∙ f) apart n
]

request_at-OthersStopped :
    (l : List Prefetcher) (k : ℕ) (o : Option Prefetcher)
    → get_elem? l k ≡ o
    → OthersStopped (some k) l
    → OthersStopped none (Main.request_at l k o)
unfolding Main.request_at
request_at-OthersStopped l k none e h = λ j p f n.
    h j p f (λ g. let same : k ≡ j = cc in let clash : get_elem? l j ≡ none = rw same at e in cc)
request_at-OthersStopped l k (some q) e h =
    set-OthersStopped l none k q (request_shutdown q) e (request_shutdown-stopped q)
      (λ j p f apart n. h j p f (λ g. apart (let same : k ≡ j = cc in same)))

-- The current policy was told to stop: now all have been.
shutdown_current-OthersStopped :
    (l : List Prefetcher) (o : Option ℕ)
    → OthersStopped o l
    → OthersStopped none (Main.shutdown_current l o)
unfolding Main.shutdown_current
shutdown_current-OthersStopped l none h = h
shutdown_current-OthersStopped l (some k) h = request_at-OthersStopped l k (get_elem? l k) refl h

install-OthersStopped :
    (l : List Prefetcher) (q : Prefetcher)
    → OthersStopped none l
    → OthersStopped (some (length l)) (l ++ (q ∷ []))
install-OthersStopped l q h j p e n = elim (dec_lt j (length l)) [
  | yes lt ↦ h j p (sym (get_elem?-append_left l (q ∷ []) j lt) ∙ e) (λ f. cc)
  | no ge ↦
      absurd
        (n (ap some (omega (arith, get_elem?-lt (l ++ (q ∷ [])) j p e, length-append l (q ∷ [])))))
]

module _ {E : Type 0} where
  install-AtMostOne :
      (kind : PrefetchPolicyKind) (r : Result ShutdownState E) (s : DemoServers)
      (d : PrefetcherDemo)
      → OthersStopped none s.spawned
      → AtMostOne (record d { servers = install kind r s; policy = kind })
  unfolding install
  install-AtMostOne kind (ok state) s d h = record {
    others = install-OthersStopped s.spawned _ h;
    current = λ k e.
        let last : length s.spawned ≡ k = cc in
        (
          record { kind = kind; aborted = false; state = state },
          ap
                (get_elem?
                  (s.spawned ++ (record { kind = kind; aborted = false; state = state } ∷ [])))
                (sym last)
              ∙ get_elem?-append_last s.spawned _,
          refl,
        );
  }
  install-AtMostOne kind (err e) s d h = record {
    others = h;
    current = λ k f. absurd (let clash : none ≡ some k = f in cc);
  }

  module _ (attach : Connection → Result (Unit {0}) E) where
    spawn_policy-AtMostOne :
        (kind : PrefetchPolicyKind) (s : DemoServers) (d : PrefetcherDemo)
        → OthersStopped none s.spawned
        → AtMostOne (record d { servers = spawn_policy attach kind s; policy = kind })
    unfolding spawn_policy
    spawn_policy-AtMostOne no_policy s d h = record {
      others = h;
      current = λ k f. absurd (let clash : none ≡ some k = f in cc);
    }
    spawn_policy-AtMostOne next s d h = install-AtMostOne next (spawn_next_page attach) s d h
    spawn_policy-AtMostOne strided s d h = install-AtMostOne strided (spawn_stride attach) s d h
    spawn_policy-AtMostOne load_aware s d h =
        install-AtMostOne load_aware (spawn_stride_load_aware attach) s d h

    pub change_policy-AtMostOne :
        (kind : PrefetchPolicyKind) (d : PrefetcherDemo)
        → AtMostOne d
        → AtMostOne (change_policy attach kind d)
    unfolding change_policy shutdown_policy
    change_policy-AtMostOne kind d h = elim (Bool-cases (kind_eq d.policy kind)) [
      | inl e ↦ rw e h
      | inr e ↦ rw e (
          spawn_policy-AtMostOne kind (shutdown_policy d.servers) d
            (shutdown_current-OthersStopped d.servers.spawned d.servers.policy h.others))
    ]

-- The server of a prefetcher is aborted, because its thread panicked.
pub crash : ℕ → PrefetcherDemo → PrefetcherDemo
crash k d = elim (get_elem? d.servers.spawned k) [
  | none ↦ d
  | some p ↦ record d {
    servers = record d.servers { spawned = set d.servers.spawned k (record p { aborted = true }) };
  }
]

pub crash-queue :
    (k : ℕ) (d : PrefetcherDemo)
    → (crash k d).servers.system_load_oqueue ≡ d.servers.system_load_oqueue
unfolding crash
crash-queue k d = elim (Option-cases (get_elem? d.servers.spawned k)) [
  | inl e ↦ rw (e, crash)
  | inr (q, e) ↦ rw (e, crash)
]

module _ (d : PrefetcherDemo) (h : AtMostOne d) where
  crashed-current :
      (k : ℕ) (q : Prefetcher)
      → get_elem? d.servers.spawned k ≡ some q
      → (j : ℕ) → d.servers.policy ≡ some j
      → (p : Prefetcher) × (get_elem? (set d.servers.spawned k (record q { aborted = true })) j
          ≡ some p)
        × (p.kind ≡ d.policy)
  crashed-current k q e j f =
      let (p, found, kind) = h.current j f in
      elim (ℕ_discrete k j) [
        | yes same ↦
            let both : some q ≡ some p = sym e ∙ ap (get_elem? d.servers.spawned) same ∙ found in
            let it : q ≡ p = cc in
            (
              record q { aborted = true },
              ap (get_elem? (set d.servers.spawned k (record q { aborted = true }))) (sym same)
                  ∙ get_elem?-set_self d.servers.spawned k _ (get_elem?-lt d.servers.spawned k q e),
              ap (λ (x : Prefetcher). x.kind) it ∙ kind,
            )
        | no apart ↦ (p, get_elem?-set_ne d.servers.spawned k j _ apart ∙ found, kind)
      ]

  pub crash-AtMostOne : (k : ℕ) → AtMostOne (crash k d)
  unfolding crash
  crash-AtMostOne k = elim (Option-cases (get_elem? d.servers.spawned k)) [
    | inl e ↦ rw (e, crash) h
    | inr (q, e) ↦
        rw (e, crash)
          (record {
            others =
                set-OthersStopped d.servers.spawned d.servers.policy k q
                  (record q { aborted = true }) e refl (λ j p f apart n. h.others j p f n);
            current = crashed-current k q e;
          })
  ]

  pub sent-AtMostOne :
      {r : Option ℕ} {d' : PrefetcherDemo} (load : Option ℕ)
      → send_load load d ≡ done (r, d')
      → AtMostOne d'
  unfolding send_load
  sent-AtMostOne {r} {d'} none e = let same : d ≡ d' = cc in subst AtMostOne same h
  sent-AtMostOne {r} {d'} (some load) e =
      elim (Outcome-cases (try_send d.servers.system_load_oqueue load)) [
        | inl (p, f) ↦ absurd (let stuck : panic p ≡ done (r, d') = rw f at e in cc)
        | inr (s, f) ↦
            let sends : done (s.0, with_load load s.1 d) ≡ done (r, d') = rw f at e in
            let same : with_load load s.1 d ≡ d' = cc in
            subst AtMostOne same (record { others = h.others; current = h.current })
      ]

pub running-AtMostOne :
    (running : Bool) (stride : Option ℕ) (d : PrefetcherDemo)
    → AtMostOne d
    → AtMostOne (set_running running stride d)
unfolding set_running
running-AtMostOne running none d h = record { others = h.others; current = h.current }
running-AtMostOne running (some stride) d h = record { others = h.others; current = h.current }

-- ===== src/Pending/Run/Fetch.antt =====
-- Read, Claim and Ack: what they leave of the stream's entries.
use file_cipher_core.Prelude.{
  length, ℕ, ◌<◌, ◌≡◌, refl, sym, ap, subst, inl, inr, Bool-cases, List, [], ◌∷◌, map, take, elem,
  All, ltb, arith, if◌then◌else◌,
}
use file_cipher_core.Entity.{PendingItem}
use file_cipher_core.Env.{
  Site, read_pending, claim_pending, ack_pending, Result, ok, err, blocked, Fault, answered,
  refused, broken, Delivery, System, head_outcome, spend, committed, wrapped,
}
use file_cipher_core.Env.Keeps.{Keeps, Keeps-wrapping, Keeps-commit}
use file_cipher_core.Repository.Stream.{
  read_count, claim_count, entry_ids, last_id, undelivered, deliveries, delivering, read_group,
  acking, ack, stale, claiming, claim,
}
use file_cipher_core.Pending.{PendingWorkerConfig}
use file_cipher_core.Pending.Run.{saved, Loop, reads, claims, fetch}
use file_cipher_core.Pending.Run.Order.{
  In, In-bounds, In-unique, Ascends-keep, In-keep, keep-In, take-In, delivered, last_id-below,
  named, All-at, All-each, pending_ids, elem-before, elem-behind, elem-acked,
}
use file_cipher_core.Pending.Run.State.{
  Stored, Accounted, Sound, Later, Held, Sound-spend, same_tables,
}

pending_deliveries : (c now : ℕ) (l : List ℕ) → pending_ids (deliveries c now l) ≡ l
pending_deliveries c now [] = refl
pending_deliveries c now (x ∷ l) = ap (λ m. x ∷ m) (pending_deliveries c now l)

delivering-Sound : (c amount : ℕ) → Keeps Sound (delivering c amount)
delivering-Sound c amount = record {
  at = λ s h.
      let new = undelivered s in
      let count = read_count amount (length new) in
      let batch = take count new in
      let p = λ (e : PendingItem). ltb s.last_delivered e.id in
      let sorted = Ascends-keep p 0 s.next_id s.stream h.order in
      record {
        order = h.order;
        ahead = last_id-below 0 s.next_id s.last_delivered batch h.ahead (
            All-each (λ e. e.id < s.next_id) batch
              λ e m. let (_, b) = In-bounds 0 s.next_id new e sorted (take-In count e new m) in b);
        kept = λ e m. elim (h.kept e m) [
          | inl fresh ↦ elim (Bool-cases (ltb (last_id s.last_delivered (entry_ids batch)) e.id)) [
            | inl later ↦ inl (ground arith)
            | inr given ↦ inr (
                inl (
                  elem-behind e.id s.pel (deliveries c s.now (entry_ids batch)) (
                    rw (pending_deliveries c s.now (entry_ids batch)) (
                      delivered count 0 s.next_id s.last_delivered new e sorted
                        (In-keep p e s.stream (ground arith) m) fresh (ground arith)))))
          ]
          | inr (inl q) ↦ inr (inl (elem-before e.id s.pel _ q))
          | inr (inr r) ↦ inr (inr r)
        ];
      };
}

module _ (c now : ℕ) (ids : List ℕ) where
  claimed_ids :
      (l : List Delivery)
      → pending_ids
          (map (λ d. if elem d.id ids then record d { consumer = c; since = now } else d) l)
        ≡ pending_ids l
  claimed_ids [] = refl
  claimed_ids (d ∷ l) = elim (Bool-cases (elem d.id ids)) [
    | inl y ↦ rw y (ap (λ m. d.id ∷ m) (claimed_ids l))
    | inr y ↦ rw y (ap (λ m. d.id ∷ m) (claimed_ids l))
  ]

claiming-Sound : (c min_idle amount : ℕ) → Keeps Sound (claiming c min_idle amount)
claiming-Sound c min_idle amount = record {
  at = λ s h. record {
    order = h.order;
    ahead = h.ahead;
    kept = λ e m. elim (h.kept e m) [
      | inl fresh ↦ inl fresh
      | inr (inl q) ↦
          inr
            (inl (rw (claimed_ids c s.now (take (claim_count amount) (stale min_idle s)) s.pel) q))
      | inr (inr r) ↦ inr (inr r)
    ];
  };
}

acking_kept :
    (items : List PendingItem) (s : System) (e : PendingItem)
    → Sound s
    → Held (saved items) s
    → In e s.stream
    → Accounted (acking (entry_ids items) s).1 e
acking_kept items s e h g m = elim (h.kept e m) [
  | inl fresh ↦ inl fresh
  | inr (inr r) ↦ inr (inr r)
  | inr (inl q) ↦ elim (Bool-cases (elem e.id (entry_ids items))) [
    | inr other ↦ inr (inl (elem-acked e.id (entry_ids items) s.pel other q))
    | inl ours ↦
        let (x, at, same) = named e.id items ours in
        let (i, r) = All-at (λ y. In y s.stream × Stored y s) items x g at in
        inr (
          inr
            (subst (λ y. Stored y s) (sym (In-unique 0 s.next_id s.stream e x h.order m i same)) r))
  ]
]

-- The state is sound, and what is acknowledged in it is stored.
abbrev pub Ready : List PendingItem → System → Type 0
Ready items s = Sound s × Held (saved items) s

acking-Ready : (items : List PendingItem) → Keeps (Ready items) (acking (entry_ids items))
acking-Ready items = record {
  at = λ s (h, g).
      (record { order = h.order; ahead = h.ahead; kept = λ e m. acking_kept items s e h g m }, g);
}

pub ack-Ready : (items : List PendingItem) → Keeps (Ready items) (ack (entry_ids items))
unfolding ack
ack-Ready items = Keeps-wrapping ack_pending _ (
    Keeps-commit (λ s (h, g). (Sound-spend s h, g)) (acking (entry_ids items)) (acking-Ready items))

pub fetch-Sound : (cfg : PendingWorkerConfig) (c : ℕ) (l : Loop) → Keeps Sound (fetch cfg c l)
unfolding fetch read_group claim
fetch-Sound cfg c reads =
    Keeps-wrapping read_pending _
      (Keeps-commit Sound-spend (delivering c cfg.amount) (delivering-Sound c cfg.amount))
fetch-Sound cfg c claims = Keeps-wrapping claim_pending _ (
    Keeps-commit Sound-spend (claiming c cfg.claim_min_idle cfg.amount)
      (claiming-Sound c cfg.claim_min_idle cfg.amount))

committed_same {ℓ} :
    {A : Type ℓ} (f : Fault) (p : Result A × System) (u : System) (P : System → Type 0)
    → P u
    → P p.1
    → P (committed f p u).1
committed_same answered p u P h k = k
committed_same (refused e) p u P h k = h
committed_same (broken n e) p u P h k = k

pub fetch-Later :
    (cfg : PendingWorkerConfig) (c : ℕ) (l : Loop) (s : System) → Later s (fetch cfg c l s).1
unfolding fetch read_group claim
fetch-Later cfg c reads s =
    committed_same (head_outcome s.script).fault (delivering c cfg.amount (spend s)) (spend s)
      (Later s) (same_tables s (spend s) refl refl refl) (same_tables s _ refl refl refl)
fetch-Later cfg c claims s =
    committed_same (head_outcome s.script).fault
      (claiming c cfg.claim_min_idle cfg.amount (spend s)) (spend s) (Later s)
      (same_tables s (spend s) refl refl refl) (same_tables s _ refl refl refl)

pub ack-Later : (ids : List ℕ) (s : System) → Later s (ack ids s).1
unfolding ack
ack-Later ids s =
    committed_same (head_outcome s.script).fault (acking ids (spend s)) (spend s) (Later s)
      (same_tables s (spend s) refl refl refl) (same_tables s _ refl refl refl)

abbrev pub Fetched : System → Result (List PendingItem) → Type 0
Fetched s (ok items) = All (λ e. In e s.stream) items
Fetched s (err e) = Unit {0}
Fetched s blocked = Unit {0}

committed-Fetched :
    (f : Fault) (site : Site) (p : Result (List PendingItem) × System) (s u : System)
    → Fetched s p.0
    → Fetched s (wrapped site (committed f p u).0)
committed-Fetched answered site (ok items, t) s u h = h
committed-Fetched answered site (err e, t) s u h = tt
committed-Fetched answered site (blocked, t) s u h = tt
committed-Fetched (refused e) site p s u h = tt
committed-Fetched (broken n e) site p s u h = tt

pub fetch-Fetched :
    (cfg : PendingWorkerConfig) (c : ℕ) (l : Loop) (s : System) → Fetched s (fetch cfg c l s).0
unfolding fetch read_group claim
fetch-Fetched cfg c reads s =
    committed-Fetched (head_outcome s.script).fault read_pending (delivering c cfg.amount (spend s))
      s (spend s)
      (All-each (λ e. In e s.stream) _
        λ e m. keep-In _ e s.stream (
          take-In (read_count cfg.amount (length (undelivered (spend s)))) e (undelivered (spend s))
            m))
fetch-Fetched cfg c claims s =
    committed-Fetched (head_outcome s.script).fault claim_pending
      (claiming c cfg.claim_min_idle cfg.amount (spend s)) s (spend s)
      (All-each (λ e. In e s.stream) _ λ e m. keep-In _ e s.stream m)

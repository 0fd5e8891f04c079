-- ===== src/Decipher/Sends.antt =====
-- Calls that send a part of a text, whatever fails: rules for each way to build one.
use file_cipher_core.Prelude.{
  ℕ, ◌≡◌, refl, sym, ap, ◌∙◌, true, List, [], ◌++◌, take, drop, take-append-drop, append-nil,
  append_assoc,
}
use file_cipher_core.Entity.{Bytes, ChunkData, ChunkKey}
use file_cipher_core.Env.{
  Site, Error, Result, ok, err, blocked, Fault, answered, refused, broken, System, Exec, chain,
  wrapped, replied, query, spend, head_outcome,
}
use file_cipher_core.Env.Keeps.{Keeps, Keeps-query}
use file_cipher_core.Retry.{RetryConfig, retry_do}
use file_cipher_core.Retry.Keeps.{retry_do-Keeps, retry_do_from}
use file_cipher_core.Decipher.{written, write_out}

module _ (keys : List ChunkKey) (chunks : List ChunkData) where
  -- The tables are the given ones, and `o` has been sent.
  pub record Frame (o : Bytes) (s : System) : Type 0 where
    pub same_keys : s.keys ≡ keys
    pub same_chunks : s.chunks ≡ chunks
    pub sent_so_far : s.output ≡ o

  -- After `o` a prefix of `text` has been sent, and all of it if the call has succeeded.
  pub record Sends (o text : Bytes) (p : Result (Unit {0}) × System) : Type 0 where
    pub part : Bytes
    pub rest : Bytes
    pub frame : Frame (o ++ part) p.1
    pub split : part ++ rest ≡ text
    pub whole : p.0 ≡ ok tt → rest ≡ []

  Frame-at : (s : System) (o o' : Bytes) → o ≡ o' → Frame o s → Frame o' s
  Frame-at s o o' e f = record {
    same_keys = f.same_keys;
    same_chunks = f.same_chunks;
    sent_so_far = f.sent_so_far ∙ e;
  }

  Frame-nil : (o : Bytes) (s : System) → Frame o s → Frame (o ++ []) s
  Frame-nil o s f = record {
    same_keys = f.same_keys;
    same_chunks = f.same_chunks;
    sent_so_far = f.sent_so_far ∙ sym (append-nil o);
  }

  pub Sends-err : (o text : Bytes) (e : Error) (s : System) → Frame o s → Sends o text (err e, s)
  Sends-err o text e s f = record {
    part = [];
    rest = text;
    frame = Frame-nil o s f;
    split = refl;
    whole = λ h. cc;
  }

  pub Sends-blocked : (o text : Bytes) (s : System) → Frame o s → Sends o text (blocked, s)
  Sends-blocked o text s f = record {
    part = [];
    rest = text;
    frame = Frame-nil o s f;
    split = refl;
    whole = λ h. cc;
  }

  pub Sends-nothing : (o : Bytes) (s : System) → Frame o s → Sends o [] (ok tt, s)
  Sends-nothing o s f = record {
    part = [];
    rest = [];
    frame = Frame-nil o s f;
    split = refl;
    whole = λ h. refl;
  }

  pub Sends-chain :
      (o x y : Bytes) (p : Result (Unit {0}) × System) (k : Exec (Unit {0}))
      → Sends o x p
      → ((t : System) → Frame (o ++ x) t → Sends (o ++ x) y (k t))
      → Sends o (x ++ y) (chain p (λ _. k))
  Sends-chain o x y (err e, t) k h next = record {
    part = h.part;
    rest = h.rest ++ y;
    frame = h.frame;
    split = sym (append_assoc h.part h.rest y) ∙ ap (λ l. l ++ y) h.split;
    whole = λ e'. cc;
  }
  Sends-chain o x y (blocked, t) k h next = record {
    part = h.part;
    rest = h.rest ++ y;
    frame = h.frame;
    split = sym (append_assoc h.part h.rest y) ∙ ap (λ l. l ++ y) h.split;
    whole = λ e'. cc;
  }
  Sends-chain o x y (ok tt, t) k h next =
      let all : h.part ≡ x =
        sym (append-nil h.part) ∙ ap (λ l. h.part ++ l) (sym (h.whole refl)) ∙ h.split in
      let more = next t (Frame-at t (o ++ h.part) (o ++ x) (ap (λ l. o ++ l) all) h.frame) in
      record {
        part = x ++ more.part;
        rest = more.rest;
        frame = Frame-at (k t).1 _ _ (append_assoc o x more.part) more.frame;
        split = append_assoc x more.part more.rest ∙ ap (λ l. x ++ l) more.split;
        whole = more.whole;
      }

  pub Sends-text :
      (o x y : Bytes) (p : Result (Unit {0}) × System) → x ≡ y → Sends o x p → Sends o y p
  Sends-text o x y p e h = record {
    part = h.part;
    rest = h.rest;
    frame = h.frame;
    split = h.split ∙ e;
    whole = h.whole;
  }

  pub Sends-wrapping :
      (o text : Bytes) (site : Site) (p : Result (Unit {0}) × System)
      → Sends o text p
      → Sends o text (wrapped site p.0, p.1)
  Sends-wrapping o text site (ok tt, t) h = h
  Sends-wrapping o text site (err e, t) h = record {
    part = h.part;
    rest = h.rest;
    frame = h.frame;
    split = h.split;
    whole = λ e'. cc;
  }
  Sends-wrapping o text site (blocked, t) h = h

  spend-Frame : (o : Bytes) (s : System) → Frame o s → Frame o (spend s)
  spend-Frame o s h = record {
    same_keys = h.same_keys;
    same_chunks = h.same_chunks;
    sent_so_far = h.sent_so_far;
  }

  written-Sends :
      (f : Fault) (o text : Bytes) (s : System) → Frame o s → Sends o text (written f text s)
  written-Sends answered o text s h = record {
    part = text;
    rest = [];
    frame = record {
      same_keys = h.same_keys;
      same_chunks = h.same_chunks;
      sent_so_far = ap (λ l. l ++ text) h.sent_so_far;
    };
    split = append-nil text;
    whole = λ e. refl;
  }
  written-Sends (refused e) o text s h = Sends-err o text e s h
  written-Sends (broken n e) o text s h = record {
    part = take n text;
    rest = drop n text;
    frame = record {
      same_keys = h.same_keys;
      same_chunks = h.same_chunks;
      sent_so_far = ap (λ l. l ++ take n text) h.sent_so_far;
    };
    split = take-append-drop n text;
    whole = λ e'. cc;
  }

  pub write_out-Sends : (o text : Bytes) (s : System) → Frame o s → Sends o text (write_out text s)
  unfolding write_out
  write_out-Sends o text s h =
      written-Sends (head_outcome s.script).fault o text (record (spend s) { wrote = true })
        record { same_keys = h.same_keys; same_chunks = h.same_chunks; sent_so_far = h.sent_so_far }

  -- A call that only reads answers `v`, if it answers.
  pub record Asks {ℓ} {A : Type ℓ} (o : Bytes) (v : A) (p : Result A × System) : Type ℓ where
    pub frame : Frame o p.1
    pub answer : (a : A) → p.0 ≡ ok a → a ≡ v

  replied-ok {ℓ} : {A : Type ℓ} (f : Fault) (r : Result A) (a : A) → replied f r ≡ ok a → r ≡ ok a
  replied-ok answered r a h = h
  replied-ok (refused e) r a h = cc
  replied-ok (broken n e) r a h = cc

  module _ {ℓ} {A : Type ℓ} (o : Bytes) (v : A) (q : System → Result A)
      (reads : (u : System) → Frame o u → q u ≡ ok v) where
    query_answer : (u t : System) (a : A) → Frame o u → query q u ≡ (ok a, t) → a ≡ v
    query_answer u t a h e =
        let e' = replied-ok (head_outcome u.script).fault (q (spend u)) a (ap (λ p. p.0) e) in
        let e'' = reads (spend u) (spend-Frame o u h) in cc

    pub Asks-query : (s : System) → Frame o s → Asks o v (query q s)
    Asks-query s h = record {
      frame = spend-Frame o s h;
      answer = λ a e. query_answer s (spend s) a h (ap (λ r. (r, spend s)) e);
    }

    query-Keeps : Keeps (Frame o) (query q)
    query-Keeps = Keeps-query (λ s h. spend-Frame o s h) q

    timeless : (s : System) (n : ℕ) → Frame o s → Frame o (record s { now = n })
    timeless s n h = record {
      same_keys = h.same_keys;
      same_chunks = h.same_chunks;
      sent_so_far = h.sent_so_far;
    }

    pub Asks-retry :
        (cfg : RetryConfig) (s : System) → Frame o s → Asks o v (retry_do cfg (query q) s)
    Asks-retry cfg s h = record {
      frame = (retry_do-Keeps timeless cfg (query q) query-Keeps).at s h;
      answer = λ a e.
          let t = (retry_do cfg (query q) s).1 in
          let (u, h', e') =
            retry_do_from timeless cfg (query q) query-Keeps s a t h (ap (λ r. (r, t)) e) in
          query_answer u t a h' e';
    }

  pub Asks-wrapping {ℓ} :
      {A : Type ℓ} (o : Bytes) (v : A) (site : Site) (p : Result A × System)
      → Asks o v p
      → Asks o v (wrapped site p.0, p.1)
  Asks-wrapping o v site (ok a, t) h = h
  Asks-wrapping o v site (err e, t) h = record { frame = h.frame; answer = λ a e'. cc }
  Asks-wrapping o v site (blocked, t) h = h

  pub Asks-pure {ℓ} : {A : Type ℓ} (o : Bytes) (v : A) (s : System) → Frame o s → Asks o v (ok v, s)
  Asks-pure o v s h = record { frame = h; answer = λ a e. cc }

  pub Asks-bind {ℓ κ} :
      {A : Type ℓ} {B : Type κ} (o : Bytes) (v : A) (w : B) (p : Result A × System) (f : A → Exec B)
      → Asks o v p
      → ((t : System) → Frame o t → Asks o w (f v t))
      → Asks o w (chain p f)
  Asks-bind o v w (ok a, t) f h next = rw (h.answer a refl) (next t h.frame)
  Asks-bind o v w (err e, t) f h next = record { frame = h.frame; answer = λ a e'. cc }
  Asks-bind o v w (blocked, t) f h next = record { frame = h.frame; answer = λ a e'. cc }

  pub Asks-chain {ℓ} :
      {A : Type ℓ} (o text : Bytes) (v : A) (p : Result A × System) (f : A → Exec (Unit {0}))
      → Asks o v p
      → ((t : System) → Frame o t → Sends o text (f v t))
      → Sends o text (chain p f)
  Asks-chain o text v (ok a, t) f h next = rw (h.answer a refl) (next t h.frame)
  Asks-chain o text v (err e, t) f h next = Sends-err o text _ t h.frame
  Asks-chain o text v (blocked, t) f h next = Sends-blocked o text t h.frame

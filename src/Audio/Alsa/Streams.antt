-- ===== src/Audio/Alsa/Streams.antt =====
-- The count of capture streams against the events, and how often the microphone is primed.
use fresh_core_native.Prelude.{
  ℕ, zero, suc, ◌+◌, ◌-◌, ◌≡◌, refl, Bool, true, false, List, [], ◌∷◌, ◌==◌, arith, if◌then◌else◌,
}
use fresh_core_native.Os.{Env}
use fresh_core_native.Sys.{Sys}
use fresh_core_native.Sys.Monad.{St, pure, Runs, Emits, Emits-IsPreorder, ◌>>=◌, emits}
use fresh_core_native.Audio.Alsa.{
  opens, closes, on_open, handle_open, handle_close, handle_event, handle_events,
}
use fresh_core_native.Audio.Alsa.Notifications.{
  NoSystem, log-NoSystem, posted_then, Posts, Posts-same, Posts-none, Posts-last, on_open-Posts,
}

-- The count of streams after an event: an opening adds one, then a closing takes one away, if any.
abbrev opened : Bool → ℕ → ℕ
opened b n = if b then n + 1 else n

abbrev closed : Bool → ℕ → ℕ
closed b n = if b then n - 1 else n

abbrev pub stream_count_after : ℕ → ℕ → ℕ
stream_count_after n mask = closed (closes mask) (opened (opens mask) n)

abbrev pub stream_count : ℕ → List ℕ → ℕ
stream_count n [] = n
stream_count n (mask ∷ masks) = stream_count (stream_count_after n mask) masks

-- How many of the events open a stream while the count is 0.
abbrev first_opening : Bool → ℕ → ℕ
first_opening b n = if b then (if n == 0 then 1 else 0) else 0

abbrev pub first_openings : ℕ → List ℕ → ℕ
first_openings n [] = 0
first_openings n (mask ∷ masks) =
    first_opening (opens mask) n + first_openings (stream_count_after n mask) masks

-- `m` returns `n`, and runs, by std::system, the notification `k` times and no other command.
pub record Counts (n k : ℕ) (m : St ℕ) : Type 0 where
  pub result : (s : Sys) → (m s).0 ≡ n
  pub posts : Posts k m

module _ ⦃env : Env⦄ where
  opening-Posts : (n : ℕ) → Posts (if n == 0 then 1 else 0) (on_open (n + 1) >>= λ _. pure (n + 1))
  opening-Posts n =
      let p = Posts-last _ (λ _. pure (n + 1)) (on_open-Posts (n + 1)) λ _. search emits in
      let same : (if n + 1 == 1 then 1 else 0) ≡ (if n == 0 then 1 else 0) = ground arith in
      Posts-same same p

  handle_open-Counts :
      (b : Bool) (n : ℕ) → Counts (opened b n) (first_opening b n) (handle_open b n)
  unfolding handle_open ◌>>=◌ pure
  handle_open-Counts false n = record { result = λ s. refl; posts = Posts-none (search emits) }
  handle_open-Counts true n = record { result = λ s. refl; posts = opening-Posts n }

  report_closed : (n : ℕ) → Runs (Emits NoSystem) (handle_close true (suc n))
  unfolding handle_close
  report_closed n = search (emits, log-NoSystem) depth 20

  handle_close-Counts : (b : Bool) (n : ℕ) → Counts (closed b n) 0 (handle_close b n)
  unfolding handle_close ◌>>=◌ pure
  handle_close-Counts false n = record { result = λ s. refl; posts = Posts-none (search emits) }
  handle_close-Counts true zero = record { result = λ s. refl; posts = Posts-none (search emits) }
  handle_close-Counts true (suc n) = record {
    result = λ s. omega arith;
    posts = Posts-none (report_closed n);
  }

  Counts-at :
      {n n' k' : ℕ} (f : ℕ → St ℕ) → Counts n' k' (f n) → (a : ℕ) → a ≡ n → Counts n' k' (f a)
  Counts-at f h a e = rw e h

  Counts-bind :
      {n n' k k' : ℕ} (m : St ℕ) (f : ℕ → St ℕ)
      → Counts n k m
      → Counts n' k' (f n)
      → Counts n' (k + k') (m >>= f)
  unfolding ◌>>=◌
  Counts-bind {k} {k'} m f hm hf = record {
    result = λ s. (Counts-at f hf (m s).0 (hm.result s)).result (m s).1;
    posts = record {
      at = λ s.
          posted_then _ k k' (hm.posts.at s)
            ((Counts-at f hf (m s).0 (hm.result s)).posts.at (m s).1);
    };
  }

  handle_event-Counts :
      (n mask : ℕ)
      → Counts (stream_count_after n mask) (first_opening (opens mask) n) (handle_event n mask)
  unfolding handle_event
  handle_event-Counts n mask =
      let c =
        Counts-bind _ _ (handle_open-Counts (opens mask) n) (handle_close-Counts (closes mask) _) in
      record { result = c.result; posts = Posts-same (omega arith) c.posts }

  -- After the events of a buffer, the count of streams is the number that it was, with one more for
  -- each opening and one less, where it is not 0, for each closing; and the only
  -- commands that std::system runs are the microphone's notification, once for each opening at which
  -- the count is 0.
  pub handle_events-Counts :
      (n : ℕ) (masks : List ℕ)
      → Counts (stream_count n masks) (first_openings n masks) (handle_events n masks)
  unfolding handle_events pure
  handle_events-Counts n [] = record { result = λ s. refl; posts = Posts-none (search emits) }
  handle_events-Counts n (mask ∷ masks) =
      Counts-bind _ _ (handle_event-Counts n mask)
        (handle_events-Counts (stream_count_after n mask) masks)

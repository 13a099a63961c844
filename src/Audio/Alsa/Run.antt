-- ===== src/Audio/Alsa/Run.antt =====
-- A whole run of AlsaInotifyLoop against the events that it read.
use fresh_core_native.Prelude.{ℕ, ◌+◌, ◌≡◌, sym, List, [], ◌∷◌, ◌++◌, none, some, length, arith}
use fresh_core_native.Os.{Env}
use fresh_core_native.Sys.Monad.{St, Runs, Runs-pure, Emits, Emits-IsPreorder, ◌>>=◌, emits}
use fresh_core_native.Audio.Commands.{exec_command, discover_tinymix}
use fresh_core_native.Audio.Polling.{LoopEnd, ended, waiting}
use fresh_core_native.Audio.Alsa.{
  masks_in, AlsaTurn, stopping, poll_failed, timed_out, readable, alsa_turns, close_ended,
  alsa_inotify_loop,
}
use fresh_core_native.Audio.Alsa.Notifications.{
  NoSystem, log-NoSystem, posted_then, Posts, Posts-same, Posts-none, Posts-quiet, Posts-last,
}
use fresh_core_native.Audio.Alsa.Streams.{
  Counts, stream_count, stream_count_after, first_openings, handle_events-Counts,
}

-- The masks of all events that are read, to the end of the loop or of the turns.
abbrev pub masks_read : List AlsaTurn → List ℕ
masks_read [] = []
masks_read (stopping ∷ turns) = []
masks_read (poll_failed ∷ turns) = []
masks_read (timed_out ∷ turns) = masks_read turns
masks_read (readable none ∷ turns) = []
masks_read (readable (some []) ∷ turns) = []
masks_read (readable (some (b ∷ buffer)) ∷ turns) =
    masks_in (length (b ∷ buffer)) (b ∷ buffer) ++ masks_read turns

first_openings-append :
    (n : ℕ) (a b : List ℕ)
    → first_openings n (a ++ b) ≡ first_openings n a + first_openings (stream_count n a) b
first_openings-append n [] b = omega arith
first_openings-append n (mask ∷ a) b =
    omega (arith, first_openings-append (stream_count_after n mask) a b)

Posts-at : {A : Type 0} {n k : ℕ} (f : ℕ → St A) → Posts k (f n) → (a : ℕ) → a ≡ n → Posts k (f a)
Posts-at f h a e = rw e h

Posts-counted :
    {A : Type 0} {n k k' : ℕ} (m : St ℕ) (f : ℕ → St A)
    → Counts n k m
    → Posts k' (f n)
    → Posts (k + k') (m >>= f)
unfolding ◌>>=◌
Posts-counted {k} {k'} m f hm hf = record {
  at = λ s. posted_then _ k k' (hm.posts.at s) ((Posts-at f hf (m s).0 (hm.result s)).at (m s).1);
}

module _ ⦃env : Env⦄ where
  alsa_turns-Posts :
      (n : ℕ) (turns : List AlsaTurn)
      → Posts (first_openings n (masks_read turns)) (alsa_turns n turns)
  unfolding alsa_turns
  alsa_turns-Posts n [] = Posts-none (Runs-pure _)
  alsa_turns-Posts n (stopping ∷ turns) = Posts-none (Runs-pure _)
  alsa_turns-Posts n (poll_failed ∷ turns) = Posts-none (search emits depth 20)
  alsa_turns-Posts n (timed_out ∷ turns) =
      Posts-quiet _ _ (search emits) λ _. alsa_turns-Posts n turns
  alsa_turns-Posts n (readable none ∷ turns) = Posts-none (search emits depth 20)
  alsa_turns-Posts n (readable (some []) ∷ turns) = Posts-none (search emits depth 20)
  alsa_turns-Posts n (readable (some (b ∷ buffer)) ∷ turns) =
      let masks = masks_in (length (b ∷ buffer)) (b ∷ buffer) in
      Posts-quiet _ _ (search emits) λ _. Posts-quiet _ _ (search emits) λ _.
        Posts-same (sym (first_openings-append n masks (masks_read turns))) (
          Posts-counted _ _ (handle_events-Counts n masks)
            (alsa_turns-Posts (stream_count n masks) turns))

  discover_tinymix-NoSystem : Runs (Emits NoSystem) discover_tinymix
  unfolding discover_tinymix exec_command
  discover_tinymix-NoSystem = search emits depth 30

  close_ended-NoSystem : (end : LoopEnd) → Runs (Emits NoSystem) (close_ended end)
  unfolding close_ended
  close_ended-NoSystem waiting = search emits
  close_ended-NoSystem ended = search emits depth 20

  -- Over a whole run of AlsaInotifyLoop, as far as its turns go, the only commands
  -- that std::system runs are the microphone's notification, once for each opening that is read while
  -- no stream is counted.
  pub alsa_inotify_loop-Posts :
      (turns : List AlsaTurn)
      → Posts (first_openings 0 (masks_read turns)) (alsa_inotify_loop turns)
  unfolding alsa_inotify_loop
  alsa_inotify_loop-Posts turns = Posts-quiet _ _ (log-NoSystem _ _ _) λ _.
      Posts-quiet _ _ discover_tinymix-NoSystem
        λ _. Posts-last _ _ (alsa_turns-Posts 0 turns) close_ended-NoSystem

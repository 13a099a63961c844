-- ===== src/Audio/Routes.antt =====
-- audio/mic_fixer.cpp: ApplyPreInit, ApplyMicFix and ShowNotification.
pub mod Line
use fresh_core_native.Prelude.{Bytes, bytes, List, [], ◌∷◌}
use fresh_core_native.Os.{Env, Call}
use fresh_core_native.Sys.Monad.{St, pure, perform, ◌>>=◌, ◌>>◌}
use fresh_core_native.Audio.Commands.{run_tinymix}

-- The arguments of RunTinymix, the last two empty where the code leaves them out.
pub record Route : Type 0 where
  pub control : Bytes
  pub val1 : Bytes
  pub val2 : Bytes
  pub val3 : Bytes

abbrev pub route : Bytes → Bytes → Route
route control val1 = record { control = control; val1 = val1; val2 = []; val3 = [] }

abbrev pub voice_mute : Bytes → Route
voice_mute v = record { control = bytes "Voice Tx Mute"; val1 = v; val2 = v; val3 = v }

abbrev pub voip_mute : Bytes → Route
voip_mute v = record { control = bytes "Voip Tx Mute"; val1 = v; val2 = v; val3 = [] }

abbrev pub power_routes : List Route
power_routes =
    route (bytes "TX_AIF1_CAP Mixer DEC0") (bytes "1")
    ∷ route (bytes "TX_AIF1_CAP Mixer DEC1") (bytes "1")
    ∷ route (bytes "ADC1_MIXER Switch") (bytes "1")
    ∷ route (bytes "ADC2_MIXER Switch") (bytes "1")
    ∷ route (bytes "ADC1 MUX") (bytes "INP2")
    ∷ route (bytes "ADC2 MUX") (bytes "INP3")
    ∷ route (bytes "IIR0 INP0 MUX") (bytes "DEC0")
    ∷ []

abbrev pub pre_init_routes : List Route
pre_init_routes = voice_mute (bytes "1") ∷ voip_mute (bytes "1") ∷ power_routes

abbrev pub mic_routes : List Route
mic_routes =
    route (bytes "TX_CDC_DMA_TX_3 Channels") (bytes "Two")
    ∷ route (bytes "TX DEC0 MUX") (bytes "SWR_MIC")
    ∷ route (bytes "TX DEC1 MUX") (bytes "SWR_MIC")
    ∷ route (bytes "TX SMIC MUX0") (bytes "ADC0")
    ∷ route (bytes "TX SMIC MUX1") (bytes "ADC2")
    ∷ route (bytes "IIR0 INP0 MUX") (bytes "DEC0")
    ∷ route (bytes "RX_RX0 Digital Volume") (bytes "84")
    ∷ route (bytes "TX_DEC0 Volume") (bytes "84")
    ∷ route (bytes "TX_DEC1 Volume") (bytes "84")
    ∷ []

abbrev pub unmute_routes : List Route
unmute_routes = voice_mute (bytes "0") ∷ voip_mute (bytes "0") ∷ []

abbrev pub notify_command : Bytes
notify_command =
    bytes
      "cmd notification post -S bigtext -t \"FreshCore MicFix Active\" \"FreshCore\" \"Audio Chip Fully Reinitialized!\" >/dev/null 2>&1 &"

module _ ⦃env : Env⦄ where
  -- RunTinymix, call after call; the code drops its results.
  unfoldable pub run_routes : List Route → St (Unit {0})
  run_routes [] = pure tt
  run_routes (r ∷ rs) = do run_tinymix r.control r.val1 r.val2 r.val3; run_routes rs

  unfoldable pub apply_pre_init : St (Unit {0})
  unfolding run_routes
  apply_pre_init = run_routes pre_init_routes

  unfoldable pub apply_mic_fix : St (Unit {0})
  unfolding run_routes
  apply_mic_fix = do run_routes mic_routes; run_routes unmute_routes

  unfoldable pub show_notification : St (Unit {0})
  show_notification = perform (Call.system notify_command) (λ h. tt)

-- ===== src/Media/Once.antt =====
-- What the first frame starts, and that it is done once.
use vncc.Base.{
  ℕ, ◌≡◌, ◌∙◌, sym, ap, ap₂, refl, subst, Bool, Bool-cases, true, false, not, ◌&&◌, if_true,
  if_false, List, [], ◌∷◌, ◌++◌, Option, inl, inr, append-nil,
}
use vncc.Media.{
  ControlMsg, Media, rate_messages, first_frame, video_cb, audio_cb, is_fatal, msg_cb, decode_first,
  decode_video, MediaEvent, video, audio, message, decode, run_media,
}
use vncc.Media.Frames.{
  IsUp, frames_in, post_frame-eq, video_cb-eq, video_cb-Kept, audio_cb-Kept, decode_video-Kept,
  msg_cb-Kept, msg_cb-ends, run-exited, run-runs,
}

-- The messages that some frames cause, given whether a frame came before.
abbrev pub sent_in : Bool → List ControlMsg → List (List ℕ) → List ControlMsg
sent_in true messages frames = []
sent_in false messages [] = []
sent_in false messages (f ∷ frames) = messages

-- An event that is no frame does not change what this is about.
record Quiet (s t : Media) : Type 0 where
  first : t.first_v_frame ≡ s.first_v_frame
  sent : t.sent ≡ s.sent
  messages : rate_messages t.auto_rate t.bitrate ≡ rate_messages s.auto_rate s.bitrate

same-Quiet : (s : Media) → Quiet s s
same-Quiet s = record { first = refl; sent = refl; messages = refl }

audio_cb-Quiet : (bytes : List ℕ) (s : Media) → Quiet s (audio_cb bytes s)
unfolding audio_cb
audio_cb-Quiet bytes s = elim (Bool-cases s.audio_ok) [
  | inr e ↦ subst (Quiet s) (sym (if_false s.audio_ok _ _ e)) (same-Quiet s)
  | inl e ↦ elim (Bool-cases s.done) [
    | inl d ↦ subst (Quiet s) (sym (if_true s.audio_ok _ _ e ∙ if_true s.done _ _ d)) (same-Quiet s)
    | inr d ↦
        subst (Quiet s) (sym (if_true s.audio_ok _ _ e ∙ if_false s.done _ _ d))
          (record { first = refl; sent = refl; messages = refl })
  ]
]

decode_first-Quiet : (s : Media) (xs : List (List ℕ)) → Quiet s (decode_first xs s)
decode_first-Quiet s [] = same-Quiet s
decode_first-Quiet s (x ∷ xs) = elim (Bool-cases (s.play_done && not s.stop_render)) [
  | inl e ↦
      subst (Quiet s) (sym (if_true (s.play_done && not s.stop_render) _ _ e))
        (record { first = refl; sent = refl; messages = refl })
  | inr e ↦
      subst (Quiet s) (sym (if_false (s.play_done && not s.stop_render) _ _ e))
        (record { first = refl; sent = refl; messages = refl })
]

msg_cb-Quiet :
    (parse : List ℕ → Option ℕ) (bytes : List ℕ) (s : Media)
    → is_fatal (parse bytes) ≡ false
    → Quiet s (msg_cb parse bytes s)
unfolding msg_cb
msg_cb-Quiet parse bytes s e =
    subst (Quiet s) (sym (if_false (is_fatal (parse bytes)) _ _ e)) (same-Quiet s)

-- What a frame does.
record Announced (s t : Media) : Type 0 where
  first : t.first_v_frame ≡ true
  sent : t.sent ≡ s.sent ++ sent_in s.first_v_frame (rate_messages s.auto_rate s.bitrate) ([] ∷ [])

first_frame-sent : (s : Media) → Announced s (first_frame s)
unfolding first_frame
first_frame-sent s = elim (Bool-cases s.first_v_frame) [
  | inl e ↦ subst (Announced s) (sym (if_true s.first_v_frame _ _ e)) (record {
    first = e;
    sent =
        sym (append-nil s.sent)
        ∙ ap (λ b. s.sent ++ sent_in b (rate_messages s.auto_rate s.bitrate) ([] ∷ [])) (sym e);
  })
  | inr e ↦ subst (Announced s) (sym (if_false s.first_v_frame _ _ e)) (record {
    first = refl;
    sent = ap (λ b. s.sent ++ sent_in b (rate_messages s.auto_rate s.bitrate) ([] ∷ [])) (sym e);
  })
]

video_cb-sent : (bytes : List ℕ) (s : Media) → IsUp s → Announced s (video_cb bytes s)
video_cb-sent bytes s v =
    subst (Announced s)
      (sym (video_cb-eq bytes s v ∙ ap first_frame (post_frame-eq bytes s v.gate)))
      (record { first = (posted.first); sent = posted.sent })
  where
    after : Media
    after = record s { hand_kframe = true; posted = s.posted ++ (bytes ∷ []) }

    posted : Announced after (first_frame after)
    posted = first_frame-sent after

module _ (parse : List ℕ → Option ℕ) where
  Quiet-run :
      (s t r : Media) (frames : List (List ℕ))
      → Quiet s t
      → r.sent ≡ t.sent ++ sent_in t.first_v_frame (rate_messages t.auto_rate t.bitrate) frames
      → r.sent ≡ s.sent ++ sent_in s.first_v_frame (rate_messages s.auto_rate s.bitrate) frames
  Quiet-run s t r frames q e =
      e ∙ ap₂ ◌++◌ q.sent (ap₂ (λ b m. sent_in b m frames) q.first q.messages)

  frame-run :
      (s t r : Media) (f : List ℕ) (frames : List (List ℕ))
      → Announced s t
      → r.sent ≡ t.sent ++ sent_in t.first_v_frame (rate_messages t.auto_rate t.bitrate) frames
      → r.sent
        ≡ s.sent ++ sent_in s.first_v_frame (rate_messages s.auto_rate s.bitrate) (f ∷ frames)
  frame-run s t r f frames q e =
      e
      ∙ ap (λ b. t.sent ++ sent_in b (rate_messages t.auto_rate t.bitrate) frames) q.first
      ∙ append-nil t.sent
      ∙ q.sent
      ∙ ap (◌++◌ s.sent) (any_frame s.first_v_frame (rate_messages s.auto_rate s.bitrate))
    where
      any_frame :
          (b : Bool) (m : List ControlMsg) → sent_in b m ([] ∷ []) ≡ sent_in b m (f ∷ frames)
      any_frame true m = refl
      any_frame false m = refl

  -- The two messages that set the bit rate are sent when the first frame comes, once, and no message is
  -- sent without a frame or after the first one.
  pub sent-run_media :
      (es : List MediaEvent) (s : Media)
      → IsUp s
      → (run_media parse es s).sent
        ≡ s.sent
          ++ sent_in s.first_v_frame (rate_messages s.auto_rate s.bitrate) (frames_in parse es)
  sent-run_media [] s v = unfold run_media in none s.first_v_frame
    where
      none : (b : Bool) → s.sent ≡ s.sent ++ sent_in b (rate_messages s.auto_rate s.bitrate) []
      none true = sym (append-nil s.sent)
      none false = sym (append-nil s.sent)
  sent-run_media (video bytes ∷ es) s v =
      ap (λ t. t.sent) (run-runs parse (video bytes) es s v.runs)
      ∙ frame-run s (video_cb bytes s) (run_media parse es (video_cb bytes s)) bytes
          (frames_in parse es) (video_cb-sent bytes s v)
          (sent-run_media es (video_cb bytes s) (video_cb-Kept bytes s v).up_still)
  sent-run_media (audio bytes ∷ es) s v =
      ap (λ t. t.sent) (run-runs parse (audio bytes) es s v.runs)
      ∙ Quiet-run s (audio_cb bytes s) (run_media parse es (audio_cb bytes s)) (frames_in parse es)
          (audio_cb-Quiet bytes s)
          (sent-run_media es (audio_cb bytes s) (audio_cb-Kept bytes s v).up_still)
  sent-run_media (decode ∷ es) s v =
      ap (λ t. t.sent) (run-runs parse decode es s v.runs)
      ∙ Quiet-run s (decode_video s) (run_media parse es (decode_video s)) (frames_in parse es)
          (unfold decode_video in decode_first-Quiet s s.posted)
          (sent-run_media es (decode_video s) (decode_video-Kept s v).up_still)
  sent-run_media (message bytes ∷ es) s v = elim (Bool-cases (is_fatal (parse bytes))) [
    | inl e ↦
        ap (λ t. t.sent)
          (run-runs parse (message bytes) es s v.runs
            ∙ ap (run_media parse es) (msg_cb-ends parse bytes s e v)
            ∙ run-exited parse es _ refl)
        ∙ none s.first_v_frame
        ∙ ap (λ f. s.sent ++ sent_in s.first_v_frame (rate_messages s.auto_rate s.bitrate) f)
            (sym (if_true (is_fatal (parse bytes)) _ _ e))
    | inr e ↦
        ap (λ t. t.sent) (run-runs parse (message bytes) es s v.runs)
        ∙ Quiet-run s (msg_cb parse bytes s) (run_media parse es (msg_cb parse bytes s))
            (frames_in parse es) (msg_cb-Quiet parse bytes s e)
            (sent-run_media es (msg_cb parse bytes s) (msg_cb-Kept parse bytes s e v).up_still)
        ∙ ap (λ f. s.sent ++ sent_in s.first_v_frame (rate_messages s.auto_rate s.bitrate) f)
            (sym (if_false (is_fatal (parse bytes)) _ _ e))
  ]
    where
      none : (b : Bool) → s.sent ≡ s.sent ++ sent_in b (rate_messages s.auto_rate s.bitrate) []
      none true = sym (append-nil s.sent)
      none false = sym (append-nil s.sent)

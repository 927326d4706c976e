-- ===== src/Params/Percent.antt =====
-- The accepted percentage and range of the mode of the run, in rtmb_c/src/testcase/util/
-- result_mgmt/result_mgmt.c: how a test reads them, fills in its own and puts the old ones back. A
-- pointer that may be `NULL` is the flag of whether the old value is asked for. The fields are of type
-- `float`, and the percentages that are put into them of type `double`.
use rtmb.Params.{guaranteed_rt, hard_rt, soft_rt, RtMode, InputParams}
use rtmb.Double.{Double}
use rtmb.Base.{◌≡◌, Option, Bool, false, true, some, none, refl}

module _ {F : Type 0} ⦃d : Double F⦄ where
  unfoldable pub get_acceptable_percent : InputParams F → RtMode → F
  get_acceptable_percent p soft_rt = p.srt.acceptable_percentage
  get_acceptable_percent p hard_rt = p.hrt.acceptable_percentage
  get_acceptable_percent p guaranteed_rt = p.grt.acceptable_percentage

  unfoldable pub set_acceptable_percent : InputParams F → RtMode → F → InputParams F
  set_acceptable_percent p soft_rt percent = record p {
    srt = record (p.srt) { acceptable_percentage = d.to_float percent };
  }
  set_acceptable_percent p hard_rt percent = record p {
    hrt = record (p.hrt) { acceptable_percentage = d.to_float percent };
  }
  set_acceptable_percent p guaranteed_rt percent = record p {
    grt = record (p.grt) { acceptable_percentage = d.to_float percent };
  }

  unfoldable pub get_range_percent : InputParams F → RtMode → F
  get_range_percent p soft_rt = p.srt.range_percentage
  get_range_percent p hard_rt = p.hrt.range_percentage
  get_range_percent p guaranteed_rt = p.grt.range_percentage

  unfoldable pub set_range_percent : InputParams F → RtMode → F → InputParams F
  set_range_percent p soft_rt percent = record p {
    srt = record (p.srt) { range_percentage = d.to_float percent };
  }
  set_range_percent p hard_rt percent = record p {
    hrt = record (p.hrt) { range_percentage = d.to_float percent };
  }
  set_range_percent p guaranteed_rt percent = record p {
    grt = record (p.grt) { range_percentage = d.to_float percent };
  }

  -- An old value, where the caller asks for it.
  abbrev asked : Bool → F → Option F
  asked true old = some old
  asked false old = none

  -- The old percentage, the old range, and the parameters after the call.
  unfoldable pub fill_acceptable_percentages :
      InputParams F → RtMode → F → F → Bool → Bool → Option F × Option F × InputParams F
  fill_acceptable_percentages p hard_rt percentage range ask_percentage ask_range = (
    asked ask_percentage p.hrt.acceptable_percentage,
    asked ask_range p.hrt.range_percentage,
    record p {
      hrt = record (p.hrt) {
        acceptable_percentage = d.to_float percentage;
        range_percentage = d.to_float range;
      };
    },
  )
  fill_acceptable_percentages p soft_rt percentage range ask_percentage ask_range = (
    asked ask_percentage p.srt.acceptable_percentage,
    asked ask_range p.srt.range_percentage,
    record p {
      srt = record (p.srt) {
        acceptable_percentage = d.to_float percentage;
        range_percentage = d.to_float range;
      };
    },
  )
  fill_acceptable_percentages p guaranteed_rt percentage range ask_percentage ask_range = (
    asked ask_percentage p.grt.acceptable_percentage,
    asked ask_range p.grt.range_percentage,
    record p {
      grt = record (p.grt) {
        acceptable_percentage = d.to_float percentage;
        range_percentage = d.to_float range;
      };
    },
  )

  -- The two setters together do what a call of `fill_acceptable_percentages` does, in either order.
  pub fill_acceptable_percentages-setters :
      (p : InputParams F) (mode : RtMode) (percentage range : F)
      → let filled = (fill_acceptable_percentages p mode percentage range false false).2 in
        (set_range_percent (set_acceptable_percent p mode percentage) mode range ≡ filled)
        × (set_acceptable_percent (set_range_percent p mode range) mode percentage ≡ filled)
  unfolding set_acceptable_percent set_range_percent fill_acceptable_percentages
  fill_acceptable_percentages-setters p soft_rt percentage range = (refl, refl)
  fill_acceptable_percentages-setters p hard_rt percentage range = (refl, refl)
  fill_acceptable_percentages-setters p guaranteed_rt percentage range = (refl, refl)

-- ===== src/Tests/Drawn.antt =====
-- The drawing of the charts of experiment 3, at concrete inputs.
use torr_bsds.Base.{ℕ, String, ◌<>◌, ◌≡◌, refl, true, false, some, List, [], ◌∷◌, map, length}
use torr_bsds.Runtime.Json.{str, obj, field, end, ok, err, library, index, lookup, as_str}
use torr_bsds.Runtime.Text.{ends_with, has_text, le_text}
use torr_bsds.Runtime.Sort.{sort, insert}
use torr_bsds.Runtime.Fallible.{traverse}
use torr_bsds.Summary.{Row}
use torr_bsds.Charts.Run.{
  Host, Args, ByMode, find_mode, set_mode, Request, load_run, kill_times, set_kill_times,
  set_kill_time, load_kill_event, find_data_files, add_files, add_file, is_data, has_any, load_all,
  load_csv, load_row,
}
use torr_bsds.Charts.Published.{Uploads, chart_names, publish}
use torr_bsds.Charts.Drawn.{Figure, modes_of}
use torr_bsds.Charts.Drawn.Rebuilds.{chart_rebuild_timeline_multi, rebuild_figure}
use torr_bsds.Charts.Drawn.Main.{Pen, charts, main}
use torr_bsds.Charts.Drawn.Finished.{written, main-draws}
use torr_bsds.Charts.Drawn.Modes.{IsKnown}
use torr_bsds.Charts.Drawn.Rows.{
  name, count_from, shown, bars_from, chart_rebuild_timeline_multi-rows,
}

-- A request, one of which rebuilt the circuit.
abbrev row : String → String → Row
row rebuilt status =
    ("latency_ms", some "9")
    ∷ ("rebuild_duration_ms", some "7")
    ∷ ("circuit_rebuilt", some rebuilt)
    ∷ ("timestamp", some "T")
    ∷ ("status", some status)
    ∷ []

abbrev host : Host
host = record {
  Float = ℕ;
  float = λ s. ok 7;
  lower = λ s. s;
  strptime = λ s. ok 20;
  fromisoformat = λ s. ok 10;
  makedirs = λ path. ok tt;
  listdir = λ path. ok ("with-predetection_1.csv" ∷ "no-predetection_1.csv" ∷ []);
  join = λ dir name. dir <> "/" <> name;
  read_rows = λ path. ok (row "false" "failed" ∷ row "true" "success" ∷ []);
  read_json = λ path. ok (obj (field "killTimestamp" (str "K") end));
}

abbrev args : Args
args = record {
  data_dir = "results";
  kill_event = "kill.json";
  kill_event_no_predetection = "";
  kill_event_with_predetection = "";
  out_dir = "charts";
}

abbrev times : ByMode ℕ
times = ("no-predetection", 10) ∷ ("with-predetection", 10) ∷ []

abbrev rows : List (Request host)
rows =
    record {
      sample = record { ts = 20; status = "failed" };
      latency_ms = 7;
      rebuild_duration_ms = 7;
      circuit_rebuilt = false;
    }
    ∷ record {
      sample = record { ts = 20; status = "success" };
      latency_ms = 7;
      rebuild_duration_ms = 7;
      circuit_rebuilt = true;
    }
    ∷ []

abbrev data_by_mode : ByMode (List (Request host))
data_by_mode = ("no-predetection", rows) ∷ ("with-predetection", rows) ∷ []

loaded : load_run host args ≡ ok (times, data_by_mode)
unfolding load_run kill_times set_kill_times set_kill_time load_kill_event find_data_files add_files
    add_file is_data has_any has_text ends_with sort insert le_text set_mode find_mode load_all
    load_csv load_row traverse index lookup as_str torr_bsds.Summary.column
    torr_bsds.Summary.find_column
loaded = refl

abbrev pen : Pen host
pen = record {
  png = λ figure. length figure.artists ∷ [];
  write_file = λ t path body. ok tt;
  one_decimal = λ n. "1.0";
  show = λ n. "1";
}

-- No upload is taken.
abbrev uploads : Uploads
uploads = record {
  upload_file = λ t path bucket key. err (library "denied");
  join = λ dir name. dir <> "/" <> name;
  basename = λ path. path;
}

main-draws_example :
    (figures : List (Figure host)) × (traverse
        (λ chart. chart)
        (charts host pen uploads times data_by_mode)
      ≡ ok figures)
    × (map (λ f. f.file) figures ≡ chart_names)
    × (main host pen uploads args "b" []
        ≡ (ok tt, (publish uploads "charts" "b" (written host pen uploads "charts" figures [])).1))
main-draws_example =
    main-draws host pen uploads args "b" times data_by_mode [] loaded (λ t path body. refl)

known : IsKnown "no-predetection" × IsKnown "with-predetection"
unfolding torr_bsds.Charts.Drawn.color_of torr_bsds.Charts.Drawn.label_of find_mode
known = (((_, refl), (_, refl)), ((_, refl), (_, refl)))

chart_rebuild_timeline_multi-rows_example :
    let shown_rows = shown host (λ mode. find_mode mode times) data_by_mode in
    chart_rebuild_timeline_multi host data_by_mode times
    ≡ ok (
        rebuild_figure host (record {
          y_offset = length shown_rows;
          yticks = count_from 0 (modes_of shown_rows);
          ytick_labels = map name (modes_of shown_rows);
          drawn = bars_from host 0 shown_rows;
        }))
chart_rebuild_timeline_multi-rows_example =
    chart_rebuild_timeline_multi-rows host data_by_mode times (known.0, (known.1, tt))

-- In it each mode has a row.
two_rows :
    count_from 0 (modes_of (shown host (λ mode. find_mode mode times) data_by_mode)) ≡ 0 ∷ 1 ∷ []
unfolding shown count_from find_mode torr_bsds.Charts.Run.compute_rebuild_offsets
two_rows = refl

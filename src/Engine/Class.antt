-- ===== src/Engine/Class.antt =====
-- internal/engine/class.go: the execution class of each workflow operation.
use gophercast.Prelude.{String, Option, none, some, List, [], ◌∷◌, ◌++◌, map, str_eq, find?}

pub data ExecClass : Type 0 where
  unknown worker inline unclear : ExecClass

-- The keys of the table `opClass`, by class.
unfoldable pub inline_ops : List String
inline_ops =
    "add-catalog" ∷ "amberscript-attach-transcription" ∷ "analyze-mediapackage" ∷ "analyze-tracks"
    ∷ "assert" ∷ "asset-delete" ∷ "attach-watson-transcription" ∷ "changetype" ∷ "cleanup"
    ∷ "comment" ∷ "conditional-config" ∷ "configure-by-dcterm" ∷ "cut-marks-to-smil" ∷ "defaults"
    ∷ "duplicate-event" ∷ "error-resolution" ∷ "export-wf-properties"
    ∷ "google-speech-attach-transcription" ∷ "hello-world" ∷ "http-notify" ∷ "import-wf-properties"
    ∷ "incident" ∷ "include" ∷ "log" ∷ "matrix-notify" ∷ "mattermost-notify" ∷ "metadata-to-acl"
    ∷ "microsoft-azure-attach-transcription" ∷ "post-mediapackage" ∷ "probe-resolution"
    ∷ "publication-channel-to-workspace" ∷ "publish-configure" ∷ "publish-configure-aws"
    ∷ "publish-engage" ∷ "publish-engage-aws" ∷ "publish-oaipmh" ∷ "rename-files"
    ∷ "republish-oaipmh" ∷ "retract-configure" ∷ "retract-configure-aws" ∷ "retract-engage"
    ∷ "retract-engage-aws" ∷ "retract-oaipmh" ∷ "retract-partial" ∷ "retract-partial-aws"
    ∷ "retract-youtube" ∷ "sanitize-adaptive" ∷ "select-version" ∷ "send-email" ∷ "series"
    ∷ "snapshot" ∷ "speechtotext-attach" ∷ "start-workflow" ∷ "statistics-writer"
    ∷ "subtitle-timeshift" ∷ "tag" ∷ "tag-by-dcterm" ∷ "tag-engage" ∷ "theme" ∷ "transfer-metadata"
    ∷ "webvtt-to-cutmarks" ∷ []

unfoldable pub unclear_ops : List String
unclear_ops = "clone" ∷ "copy" ∷ "cover-image" ∷ "move-storage" ∷ []

unfoldable pub worker_ops : List String
worker_ops =
    "amberscript-start-transcription" ∷ "composite" ∷ "concat" ∷ "crop-video" ∷ "demux" ∷ "editor"
    ∷ "encode" ∷ "execute-many" ∷ "execute-once" ∷ "extract-text"
    ∷ "google-speech-start-transcription" ∷ "image" ∷ "image-convert" ∷ "image-to-video"
    ∷ "ingest-download" ∷ "inspect" ∷ "microsoft-azure-start-transcription" ∷ "multiencode" ∷ "mux"
    ∷ "partial-import" ∷ "prepare-av" ∷ "process-smil" ∷ "publish-youtube" ∷ "segment-video"
    ∷ "segmentpreviews" ∷ "select-tracks" ∷ "silence" ∷ "speechtotext"
    ∷ "start-watson-transcription" ∷ "timelinepreviews" ∷ "videogrid" ∷ "waveform" ∷ "zip" ∷ []

abbrev pub entry : ExecClass → String → String × ExecClass
entry c op = (op, c)

unfoldable pub op_class : List (String × ExecClass)
op_class =
    map (entry inline) inline_ops
    ++ (map (entry unclear) unclear_ops ++ map (entry worker) worker_ops)

-- A read of a Go map: the zero value `ClassUnknown` for a key that is not there.
abbrev pub class_or_unknown : Option (String × ExecClass) → ExecClass
class_or_unknown none = unknown
class_or_unknown (some (_, c)) = c

unfoldable pub class_of : String → ExecClass
unfolding op_class
class_of operation = class_or_unknown (find? (λ e. str_eq operation e.0) op_class)

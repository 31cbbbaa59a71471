-- ===== src/Http/Upload.antt =====
-- http/upload.go: the route that stores an uploaded file. The parsing of the form, and the storing of
-- the file by magicCommon, are parameters.
use magic_engine.Common.{ℕ, Option, none, some, [], Bytes, codes}
use magic_engine.NetHttp.{Error, Try, ok, err, Request, Reply}
use magic_engine.Paths.{join}
use magic_engine.Http.Registry.{Route}

-- What ctx.Value gives at one of the keys: nil, a string, or something else, at which the type
-- assertion panics.
pub data ContextValue : Type 0 where
  absent : ContextValue
  text : Bytes → ContextValue
  foreign : ContextValue

-- What the code calls outside
pub record Uploads (C : Type 0) : Type 0 where
  -- ctx.Value(RelativePath{}), ctx.Value(FileField{}), ctx.Value(FileName{})
  pub relative_path : C → ContextValue
  pub file_field : C → ContextValue
  pub file_name : C → ContextValue
  -- req.ParseMultipartForm(maxFileSize)
  pub parse_multipart_form : Request → ℕ → Option Error
  -- MultipartFormFile(req, field, directory, name): the name that the file was stored under
  pub multipart_form_file : Request → Bytes → Bytes → Bytes → Try Bytes

-- uploadRoute; an UploadCallbackFunc has the context, the request, the path and the error.
pub record UploadRoute (C : Type 0) : Type 0 where
  pub uri_pattern : Bytes
  pub method : Bytes
  pub root_upload_path : Bytes
  pub relative_path : Bytes
  pub max_file_size : ℕ
  pub callback_func : Option (C → Request → Bytes → Option Error → Reply)

-- `if v := ctx.Value(key); v != nil { v.(string) } else { … }`; none is the panic.
abbrev pub value_or : ContextValue → Bytes → Option Bytes
value_or absent other = some other
value_or (text t) other = some t
value_or foreign other = none

abbrev conversion_panic : Bytes
conversion_panic = codes "interface conversion: interface {} is not string"

module _ {C : Type 0} where
  -- CreateUploadRoute
  unfoldable pub create_upload_route :
      Bytes
      → Bytes
      → Bytes
      → Bytes
      → ℕ
      → Option (C → Request → Bytes → Option Error → Reply)
      → UploadRoute C
  create_upload_route uri_pattern method root_upload_path relative_path max_file_size
        callback_func =
      record {
        uri_pattern = uri_pattern;
        method = method;
        root_upload_path = root_upload_path;
        relative_path = relative_path;
        max_file_size = max_file_size;
        callback_func = callback_func;
      }

  -- The deferred function of uploadFun
  finish_upload : UploadRoute C → C → Request → Bytes → Option Error → Reply
  finish_upload s ctx req file_path e = elim s.callback_func [
    | some callback ↦ callback ctx req file_path e
    | none ↦ elim e [
      | some _ ↦ Reply.write_header 400 Reply.done
      | none ↦ Reply.write_header 200 Reply.done
    ]
  ]

module _ {C : Type 0} (uploads : Uploads C) where
  -- getUploadContext; none is a panic.
  unfoldable pub get_upload_context : UploadRoute C → C → Option (Bytes × Bytes × Bytes)
  get_upload_context s ctx = elim (value_or (uploads.relative_path ctx) s.relative_path) [
    | none ↦ none
    | some relative_path ↦ elim (value_or (uploads.file_field ctx) (codes "file")) [
      | none ↦ none
      | some file_field ↦ elim (value_or (uploads.file_name ctx) []) [
        | none ↦ none
        | some file_name ↦ some (relative_path, file_field, file_name)
      ]
    ]
  ]

  -- The path and the error that uploadFun ends with
  store_upload : UploadRoute C → Request → Bytes → Try Bytes → Bytes × Option Error
  store_upload s req relative_path (err e) = ([], some e)
  store_upload s req relative_path (ok file_name) = (join relative_path file_name, none)

  receive_upload :
      UploadRoute C → Request → Bytes × Bytes × Bytes → Option Error → Bytes × Option Error
  receive_upload s req (relative_path, file_field, file_name) (some e) = ([], some e)
  receive_upload s req (relative_path, file_field, file_name) none =
      store_upload s req relative_path (
        uploads.multipart_form_file req file_field (join s.root_upload_path relative_path)
          file_name)

  upload_with : UploadRoute C → C → Request → Option (Bytes × Bytes × Bytes) → Reply
  upload_with s ctx req none = Reply.panic conversion_panic
  upload_with s ctx req (some context) =
      let (file_path, e) =
        receive_upload s req context (uploads.parse_multipart_form req s.max_file_size) in
      finish_upload s ctx req file_path e

  -- uploadFun
  unfoldable pub upload_fun : UploadRoute C → C → Request → Reply
  unfolding get_upload_context upload_with receive_upload store_upload finish_upload
  upload_fun s ctx req = upload_with s ctx req (get_upload_context s ctx)

  -- The Route that an uploadRoute is
  unfoldable pub route_of_upload : UploadRoute C → Route C
  route_of_upload s = record { pattern = s.uri_pattern; method = s.method; handler = upload_fun s }

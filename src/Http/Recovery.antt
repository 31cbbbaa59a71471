-- ===== src/Http/Recovery.antt =====
-- http/recovery.go and http/logger.go: the two middlewares that every server starts with. What the
-- logger logs, and the text of the stack, are outside the model: the stack is a parameter.
use magic_engine.Common.{some, ◌++◌, if◌then◌else◌, Bytes, codes, bytes_eq}
use magic_engine.NetHttp.{Reply}
use magic_engine.Http.Middleware.{Code, Middleware}

-- logger.MiddleWareHandle: it goes on, and reads the status afterwards.
unfoldable pub logger : {C : Type 0} → Middleware C
logger req = Code.next (Code.status_then (λ _. Code.done))

-- fmt.Sprintf(panicHTML, err, err, stack)
unfoldable pub panic_html : Bytes → Bytes → Bytes
panic_html message stack =
    codes "<html>\n<head><title>PANIC: "
    ++ message
    ++ codes
        "</title>\n<style type=\"text/css\">\nhtml, body {\n\tfont-family: \"Roboto\", sans-serif;\n\tcolor: #333333;\n\tbackground-color: #ea5343;\n\tmargin: 0px;\n}\nh1 {\n\tcolor: #d04526;\n\tbackground-color: #ffffff;\n\tpadding: 20px;\n\tborder-bottom: 1px dashed #2b3848;\n}\npre {\n\tmargin: 20px;\n\tpadding: 20px;\n\tborder: 2px solid #2b3848;\n\tbackground-color: #ffffff;\n}\n</style>\n</head><body>\n<h1>PANIC</h1>\n<pre style=\"font-weight: bold;\">"
    ++ message
    ++ codes "</pre>\n<pre>"
    ++ stack
    ++ codes "</pre>\n</body>\n</html>"

-- The deferred function of recovery.MiddleWareHandle, over the global `Env` and the stack.
unfoldable pub answer_panic : Bytes → Bytes → Bytes → Reply
answer_panic env stack message =
    if bytes_eq env (codes "development")
    then Reply.set_header (codes "Content-Type") (some (codes "text/html"))
        (Reply.write_header 500 (Reply.write (panic_html message stack) (λ _ _. Reply.done)))
    else Reply.write_header 500
        (Reply.write (codes "500 Internal Server Error") (λ _ _. Reply.done))

-- recovery.MiddleWareHandle
unfoldable pub recovery : {C : Type 0} → Bytes → Bytes → Middleware C
unfolding answer_panic
recovery env stack req = Code.recovering (Code.next Code.done) (answer_panic env stack) Code.done

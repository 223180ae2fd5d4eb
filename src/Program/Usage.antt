-- ===== src/Program/Usage.antt =====
-- The text of `usage` in src/u-config.c.
use u_config.Base.{◌++◌, Bytes, codes}

unfoldable pub usage : Bytes
usage =
    codes "u-config 0.34.0 https://github.com/skeeto/u-config\n"
    ++ (codes "free and unencumbered software released into the public domain\n"
        ++ (codes "usage: pkg-config [OPTIONS...] [PACKAGES...]\n"
            ++ (codes "  --cflags, --cflags-only-I, --cflags-only-other\n"
                ++ (codes "  --define-prefix, --dont-define-prefix\n"
                    ++ (codes "  --define-variable=NAME=VALUE, --variable=NAME\n"
                        ++ (codes "  --exists, --validate, --{atleast,exact,max}-version=VERSION\n"
                            ++ (codes "  --errors-to-stdout\n"
                                ++ (codes "  --keep-system-cflags, --keep-system-libs\n"
                                    ++ (codes
                                          "  --libs, --libs-only-L, --libs-only-l, --libs-only-other\n"
                                        ++ (codes "  --list-all\n"
                                            ++ (codes "  --list-package-names\n"
                                                ++ (codes "  --maximum-traverse-depth=N\n"
                                                    ++ (codes "  --modversion\n"
                                                        ++ (codes "  --msvc-syntax\n"
                                                            ++ (codes "  --newlines\n"
                                                            ++ (codes "  --silence-errors\n"
                                                            ++ (codes "  --static\n"
                                                            ++ (codes "  --with-path=PATH\n"
                                                            ++ (codes "  -h, --help, --version\n"
                                                            ++ (codes "environment:\n"
                                                            ++ (codes "  PKG_CONFIG_PATH\n"
                                                            ++ (codes "  PKG_CONFIG_LIBDIR\n"
                                                            ++ (codes "  PKG_CONFIG_TOP_BUILD_DIR\n"
                                                            ++ (codes
                                                            "  PKG_CONFIG_SYSTEM_INCLUDE_PATH\n"
                                                            ++ (codes
                                                            "  PKG_CONFIG_SYSTEM_LIBRARY_PATH\n"
                                                            ++ (codes
                                                            "  PKG_CONFIG_ALLOW_SYSTEM_CFLAGS\n"
                                                            ++ (codes
                                                            "  PKG_CONFIG_ALLOW_SYSTEM_LIBS\n")))))))))))))))))))))))))))
